-- ===== src/Store/Goroutine/Invariant.antt =====
-- What holds of every state that goroutines over one `Directory` can reach.
use dbstore.Common.{
  ℕ, ◌+◌, ◌≤◌, ◌≡◌, refl, ap, Bool, true, false, Option, none, some, List, [], ◌∷◌, ◌++◌, String,
  arith, lookup, inl, inr, count-lookup, total-set, total_mono, gather-frame, get_elem?, set, total,
  total-step, total-step_three, total-append, le-total, gather, gather-none,
}
use dbstore.Store.Directory.{Entry, Directory, Lifecycle, new_directory}
use dbstore.Store.Protocol.{
  no_call, Choice, Pc, ready, opened, discarding, reserving, notifying, closing, closing_all,
}
use dbstore.Store.Goroutine.{move}
use dbstore.Store.Goroutine.System.{
  System, Step, starts, moves, registers_driver, init, Reach, here, next,
}
use dbstore.Store.Goroutine.Ownership.{holds, owned, opened_by, move-Conserves}
use dbstore.Store.Goroutine.Locks.{
  holds_mu, holds_observer_mu, in_opening, bit, IsLocked, move-IsLocked,
}
use dbstore.Store.Goroutine.InFlight.{
  in_flight, has_slot, counted, allocated, Fits, Stands, move-counted,
}
use dbstore.Store.Goroutine.Slots.{move-Fits}
use dbstore.Store.Goroutine.Fresh.{
  unpublished, IsFresh, IsAllocated, move-IsFresh, move-IsAllocated,
}
use dbstore.Store.Goroutine.Quiet.{closes, IsQuiet, IsApart, move-IsQuiet}
use dbstore.Store.Goroutine.Shutdown.{shuts, has_shut, IsShut, move-IsShut}
use dbstore.Store.Goroutine.Keys.{IsTallied, move-IsTallied}
use dbstore.Store.Goroutine.Limits.{IsLimited, move-IsLimited}
use dbstore.Store.Goroutine.Gauge.{observed, IsGauged, move-IsGauged}
use dbstore.Store.Goroutine.Order.{reserved, unreserved, IsOrdered, move-IsOrdered}

abbrev pub all_reserved : List Pc → List Lifecycle
all_reserved = gather holds_observer_mu reserved

abbrev pub all_unreserved : List Pc → List Lifecycle
all_unreserved = gather holds_mu unreserved

pub record Inv (d : Directory) (ts : List Pc) : Type 0 where
  pub owner : (c : ℕ) → owned c d + total (holds c) ts ≡ opened_by c d
  pub locked : IsLocked d (total holds_mu ts) (total holds_observer_mu ts) (total in_opening ts)
  pub counts : (e : ℕ) → counted (d.heap e) ≡ total (in_flight e) ts
  pub fits : (e : ℕ) → Fits (d.heap e) (total (has_slot e) ts)
  pub fresh : (c : ℕ) → IsFresh c d (total (unpublished c) ts)
  pub alloc : (c : ℕ) → IsAllocated c d
  pub quiet : (c : ℕ) → IsQuiet c d (total (closes c) ts)
  pub shut : IsShut d (total shuts ts) (total has_shut ts)
  pub tallied : (k : String) → IsTallied k d
  pub limits : (e : ℕ) → IsLimited (d.heap e)
  pub gauged : (k : String) → IsGauged k d (total (observed k) ts)
  pub ordered : IsOrdered d (all_reserved ts) (all_unreserved ts)

Inv-init : (observer : Bool) → Inv (init observer).dir []
unfolding new_directory
Inv-init observer = record {
  owner = λ c. ground arith;
  locked = (refl, refl, refl);
  counts = λ e. refl;
  fits = λ e. refl;
  fresh = λ c. ground arith;
  alloc = λ c. omega arith;
  quiet = λ c. inr refl;
  shut = (inr refl, inr refl, inl refl);
  tallied = λ k. (refl, omega arith);
  limits = λ e. tt;
  gauged = λ k. inr refl;
  ordered = inr refl;
}

bit-le : (b : Bool) → bit b ≤ 1
bit-le true = omega arith
bit-le false = omega arith

bit-eq_one : (b : Bool) → bit b ≡ 1 → b ≡ true
bit-eq_one true h = refl
bit-eq_one false h = absurd (omega arith)

reserved-nil : (p : Pc) → holds_observer_mu p ≡ 0 → reserved p ≡ []
reserved-nil (notifying ls k) h = absurd (omega arith)
reserved-nil _ h = refl

unreserved-nil : (p : Pc) → holds_mu p ≡ 0 → unreserved p ≡ []
unreserved-nil (reserving ls k) h = absurd (omega arith)
unreserved-nil _ h = refl

pub nothing_reserved : (ts : List Pc) → total holds_observer_mu ts ≡ 0 → all_reserved ts ≡ []
nothing_reserved = gather-none holds_observer_mu reserved reserved-nil

pub nothing_unreserved : (ts : List Pc) → total holds_mu ts ≡ 0 → all_unreserved ts ≡ []
nothing_unreserved = gather-none holds_mu unreserved unreserved-nil

closes-le-holds : (c : ℕ) (p : Pc) → closes c p ≤ holds c p
closes-le-holds c (discarding x f) = omega arith
closes-le-holds c (closing x) = omega arith
closes-le-holds c (closing_all x xs) = omega arith
closes-le-holds c _ = omega arith

allocated-le : (x : Option Entry) → allocated x ≤ 1
allocated-le none = omega arith
allocated-le (some x) = omega arith

allocated-none : (x : Option Entry) → allocated x ≡ 0 → x ≡ none
allocated-none none h = refl
allocated-none (some x) h = absurd (omega arith)

module _ {d : Directory} {ts : List Pc} (v : Inv d ts) where
  Inv-IsApart : (c : ℕ) → IsApart c d (total (closes c) ts)
  Inv-IsApart c = ground (arith, v.owner c, total_mono (closes c) (holds c) ts (closes-le-holds c))

  stands-ready : (name : String) (e : ℕ) → lookup name d.entries ≡ some e → allocated (d.heap e) ≡ 1
  stands-ready name e found =
      omega (arith, count-lookup name e d.entries found, v.alloc e, allocated-le (d.heap e))

  -- What a step needs to know of the heap.
  pub Inv-Stands : (i : ℕ) (p : Pc) → get_elem? ts i ≡ some p → Stands d p
  Inv-Stands i (opened n cfg c) h =
      allocated-none (d.heap c)
        (ground (arith, v.fresh c, le-total (unpublished c) ts i (opened n cfg c) h))
  Inv-Stands i (ready r) h = stands-ready
  Inv-Stands i _ h = tt

module _ (i : ℕ) (ch : Choice) (p : Pc) {d d' : Directory} {q : Pc} {ts : List Pc} (v : Inv d ts)
    (at_i : get_elem? ts i ≡ some p) (step : move ch d p ≡ some (d', q)) where
  stands : Stands d p
  stands = Inv-Stands v i p at_i

  locked' :
      IsLocked d'
        (total holds_mu (set ts i q))
        (total holds_observer_mu (set ts i q))
        (total in_opening (set ts i q))
  locked' =
      total-step_three holds_mu holds_observer_mu in_opening (IsLocked d) (IsLocked d') ts i p q
        at_i (move-IsLocked ch d p step) v.locked

  ordered' : IsOrdered d' (all_reserved (set ts i q)) (all_unreserved (set ts i q))
  ordered' =
      let (rs, r, r', ro) =
        gather-frame holds_observer_mu reserved reserved-nil ts i p q at_i
          (omega (arith, bit-le d.observer_mu, v.locked))
          (omega (arith, bit-le d'.observer_mu, locked')) in
      let (us, u, u', uo) =
        gather-frame holds_mu unreserved unreserved-nil ts i p q at_i
          (omega (arith, bit-le d.mu, v.locked)) (omega (arith, bit-le d'.mu, locked')) in
      rw (r', u')
        (move-IsOrdered ch d p step rs us (ground (arith, bit-eq_one d.observer_mu, ro, v.locked))
          (ground (arith, bit-eq_one d.mu, uo, v.locked)) (rw (r, u) at v.ordered))

  move-Inv : Inv d' (set ts i q)
  move-Inv = record {
    owner = λ c.
        omega (arith, v.owner c, total-set (holds c) ts i p q at_i, move-Conserves c ch d p step);
    locked = locked';
    counts = λ e.
        total-step (in_flight e) (λ n. counted (d.heap e) ≡ n) (λ n. counted (d'.heap e) ≡ n) ts i p
          q at_i (move-counted e ch d p stands step) (v.counts e);
    fits = λ e.
        total-step (has_slot e) (Fits (d.heap e)) (Fits (d'.heap e)) ts i p q at_i
          (move-Fits e ch d p stands step) (v.fits e);
    fresh = λ c.
        total-step (unpublished c) (IsFresh c d) (IsFresh c d') ts i p q at_i
          (move-IsFresh c ch d p step) (v.fresh c);
    alloc = λ c. move-IsAllocated c ch d p step (v.alloc c) stands;
    quiet = λ c.
        total-step (closes c) (λ n. IsApart c d n × IsQuiet c d n) (IsQuiet c d') ts i p q at_i
          (λ n h. move-IsQuiet c ch d p stands step n h.0 h.1) (Inv-IsApart v c, v.quiet c);
    shut =
        total-step_three shuts has_shut has_shut (λ a b _. IsShut d a b) (λ a b _. IsShut d' a b) ts
          i p q at_i (λ a b _. move-IsShut ch d p step a b) v.shut;
    tallied = λ k. move-IsTallied k ch d p step (v.tallied k);
    limits = λ e. move-IsLimited e ch d p step (v.limits e);
    gauged = λ k.
        total-step (observed k) (IsGauged k d) (IsGauged k d') ts i p q at_i
          (move-IsGauged k ch d p step) (v.gauged k);
    ordered = ordered';
  }

-- A goroutine that has made no call yet adds nothing to any sum.
total-idle :
    (w : Pc → ℕ) (ts : List Pc)
    → w (ready no_call) ≡ 0
    → total w (ts ++ ready no_call ∷ []) ≡ total w ts
total-idle w ts z = omega (arith, total-append w ts (ready no_call ∷ []))

gather-idle :
    (f : Pc → List Lifecycle) (w : Pc → ℕ) (ts : List Pc)
    → f (ready no_call) ≡ []
    → gather w f (ts ++ ready no_call ∷ []) ≡ gather w f ts
gather-idle f w [] z = rw z
gather-idle f w (x ∷ ts) z = ap (λ l. f x ++ l) (gather-idle f w ts z)

starts-Inv : (d : Directory) (ts : List Pc) → Inv d ts → Inv d (ts ++ ready no_call ∷ [])
starts-Inv d ts v = record {
  owner = λ c. rw (total-idle (holds c) ts refl) (v.owner c);
  locked =
      rw
        (
          total-idle holds_mu ts refl,
          total-idle holds_observer_mu ts refl,
          total-idle in_opening ts refl,
        )
        v.locked;
  counts = λ e. rw (total-idle (in_flight e) ts refl) (v.counts e);
  fits = λ e. rw (total-idle (has_slot e) ts refl) (v.fits e);
  fresh = λ c. rw (total-idle (unpublished c) ts refl) (v.fresh c);
  alloc = v.alloc;
  quiet = λ c. rw (total-idle (closes c) ts refl) (v.quiet c);
  shut = rw (total-idle shuts ts refl, total-idle has_shut ts refl) v.shut;
  tallied = v.tallied;
  limits = v.limits;
  gauged = λ k. rw (total-idle (observed k) ts refl) (v.gauged k);
  ordered =
      rw (gather-idle reserved holds_observer_mu ts refl, gather-idle unreserved holds_mu ts refl)
        v.ordered;
}

Step-Inv : {s t : System} → Step s t → Inv s.dir s.threads → Inv t.dir t.threads
Step-Inv {s} starts v = starts-Inv s.dir s.threads v
Step-Inv (moves i ch p at_i step) v = move-Inv i ch p v at_i step
Step-Inv (registers_driver name b e) v = record {
  owner = v.owner;
  locked = v.locked;
  counts = v.counts;
  fits = v.fits;
  fresh = v.fresh;
  alloc = v.alloc;
  quiet = v.quiet;
  shut = v.shut;
  tallied = v.tallied;
  limits = v.limits;
  gauged = v.gauged;
  ordered = v.ordered;
}

-- Every state that goroutines can reach is well formed.
pub Reach-Inv : {observer : Bool} {s : System} → Reach observer s → Inv s.dir s.threads
Reach-Inv {observer} here = Inv-init observer
Reach-Inv (next r st) = Step-Inv st (Reach-Inv r)
