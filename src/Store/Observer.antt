-- ===== src/Store/Observer.antt =====
-- `safeObserve` and `MultiObserver` of internal/store/observer.go. An observer is a state and what one
-- of its methods makes of the state, up to its return or its panic.
use dbstore.Common.{List, [], ◌∷◌, map, ◌≡◌, refl, ap, ◌∙◌}

-- The end of a call of Go code.
pub data End : Type 0 where
  returned panicked : End

recover : End → End
recover end = returned

pub record Member (E S : Type 0) : Type 0 where
  pub state : S
  pub method : E → S → S × End

module _ {E S : Type 0} where
  -- The deferred `recover()` turns a panic into a return; what was done before it stays.
  unfoldable pub safe_observe : E → Member E S → Member E S × End
  unfolding recover
  safe_observe e o = let (st, end) = o.method e o.state in (record o { state = st }, recover end)

  -- The rest of a loop, after a call: a panic leaves it as it was.
  abbrev rest_after : End → List (Member E S) → List (Member E S) → List (Member E S)
  rest_after returned untouched observed = observed
  rest_after panicked untouched observed = untouched

  -- A method of `MultiObserver`: the loop over the members.
  unfoldable pub observe_all : E → List (Member E S) → List (Member E S)
  unfolding safe_observe
  observe_all e [] = []
  observe_all e (o ∷ os) =
      let observed = observe_all e os in
      let (o', end) = safe_observe e o in o' ∷ rest_after end os observed

  unfoldable pub observe_events : List E → List (Member E S) → List (Member E S)
  unfolding observe_all
  observe_events [] os = os
  observe_events (e ∷ es) os = observe_events es (observe_all e os)

  -- One observer on its own, behind `safeObserve`.
  unfoldable pub observe_alone : List E → Member E S → Member E S
  unfolding safe_observe
  observe_alone [] o = o
  observe_alone (e ∷ es) o = observe_alone es (safe_observe e o).0

  no_members : (es : List E) → observe_events es [] ≡ []
  unfolding observe_events
  no_members [] = refl
  no_members (e ∷ es) = no_members es

  first_member :
      (es : List E) (o : Member E S) (os : List (Member E S))
      → observe_events es (o ∷ os) ≡ observe_alone es o ∷ observe_events es os
  unfolding observe_events observe_alone
  first_member [] o os = refl
  first_member (e ∷ es) o os = first_member es (safe_observe e o).0 (observe_all e os)

  -- Each member of a group sees every callback, in order, exactly as if it were the only observer,
  -- whichever members panic.
  pub observe_events-observe_alone :
      (es : List E) (os : List (Member E S)) → observe_events es os ≡ map (observe_alone es) os
  observe_events-observe_alone es [] = no_members es
  observe_events-observe_alone es (o ∷ os) =
      first_member es o os ∙ ap (λ l. observe_alone es o ∷ l) (observe_events-observe_alone es os)
