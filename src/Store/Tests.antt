-- ===== src/Store/Tests.antt =====
-- Adapter options and groups of observers on concrete inputs.
use dbstore.Common.{ℕ, ◌+◌, ◌==◌, Option, none, some, List, [], ◌∷◌, map, ◌≡◌, refl, if◌then◌else◌}
use dbstore.Store.Options.{AdapterOption, with_observer}
use dbstore.Store.Observer.{
  returned, panicked, Member, observe_events, observe_alone, observe_events-observe_alone,
}

abbrev options : List (Option (AdapterOption ℕ))
options = none ∷ some (with_observer (some 7)) ∷ []

-- An observer that adds up, and panics on 3.
abbrev adder : Member ℕ ℕ
adder = record { state = 0; method = λ e n. (n + e, if e == 3 then panicked else returned) }

adds_up : observe_events (3 ∷ 4 ∷ []) (adder ∷ []) ≡ record adder { state = 7 } ∷ []
unfolding observe_events
adds_up = refl

observe_events-observe_alone_example :
    observe_events (3 ∷ 4 ∷ []) (adder ∷ adder ∷ [])
    ≡ map (observe_alone (3 ∷ 4 ∷ [])) (adder ∷ adder ∷ [])
observe_events-observe_alone_example =
    observe_events-observe_alone (3 ∷ 4 ∷ []) (adder ∷ adder ∷ [])
