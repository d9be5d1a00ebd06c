-- ===== src/Store/Goroutine/Progress.antt =====
-- Nobody waits for a goroutine that cannot move.
use native.Mathlib.Decide.{ℕ_discrete}
use dbstore.Common.{
  ℕ, ◌+◌, ◌<◌, ◌≡◌, ◌≢◌, Bool, true, false, none, some, List, [], ◌∷◌, arith, Bool-cases, ◌↔◌, inl,
  inr, ◌⊎◌, get_elem?, total, le-total, total_pos,
}
use dbstore.Store.Throttle
use dbstore.Store.Throttle.{
  Throttle, unlimited, sem, acquire_check, receive, new_throttle, new_throttle_lem, tokens,
  capacity,
}
use dbstore.Store.Directory.{Directory, release}
use dbstore.Store.Protocol.{
  go, Pc, discarding, finishing, reserving, notifying, draining, closing, closing_all, admitted,
  refused, granted, ended, releasing, leaving,
}
use dbstore.Store.Goroutine.{move}
use dbstore.Store.Goroutine.System.{System, Reach}
use dbstore.Store.Goroutine.Locks.{holds_mu, holds_observer_mu, in_opening}
use dbstore.Store.Goroutine.InFlight.{in_flight, has_slot, counted}
use dbstore.Store.Goroutine.Invariant.{Inv, Reach-Inv}

-- The goroutine can take its next step.
abbrev pub IsEnabled : Directory → Pc → Type 0
IsEnabled d p = move go d p ≢ none

-- Where a goroutine waits for nobody.
abbrev IsActive : Pc → Type 0
IsActive (discarding _ _) = Unit {0}
IsActive (finishing _) = Unit {0}
IsActive (notifying _ _) = Unit {0}
IsActive (closing _) = Unit {0}
IsActive (closing_all _ _) = Unit {0}
IsActive (admitted _ _) = Unit {0}
IsActive (refused _ _ _) = Unit {0}
IsActive (granted _ _) = Unit {0}
IsActive (ended _ _ _) = Unit {0}
IsActive (releasing _ _) = Unit {0}
IsActive (leaving _ _) = Unit {0}
IsActive _ = ⊥

module _ {d : Directory} {ts : List Pc} (v : Inv d ts) (i : ℕ) where
  -- The entry of an operation in flight is there, and its wait group is positive.
  busy : (e : ℕ) (p : Pc) → get_elem? ts i ≡ some p → 0 < in_flight e p → 0 < counted (d.heap e)
  busy e p at_i b = omega (arith, v.counts e, le-total (in_flight e) ts i p at_i)

  active-IsEnabled : (p : Pc) → get_elem? ts i ≡ some p → IsActive p → IsEnabled d p
  unfolding move release Throttle.release
  active-IsEnabled (discarding x f) at_i a h = cc
  active-IsEnabled (finishing r) at_i a h =
      ground (arith, v.locked, le-total in_opening ts i (finishing r) at_i)
  active-IsEnabled (notifying [] k) at_i a h = cc
  active-IsEnabled (notifying (l ∷ ls) k) at_i a h = ground arith
  active-IsEnabled (closing x) at_i a h = cc
  active-IsEnabled (closing_all x xs) at_i a h = cc
  active-IsEnabled (admitted n x) at_i a h = ground (arith, busy x (admitted n x) at_i)
  active-IsEnabled (refused n x f) at_i a h = ground arith
  active-IsEnabled (granted n x) at_i a h = ground arith
  active-IsEnabled (ended n x o) at_i a h = ground arith
  active-IsEnabled (releasing x o) at_i a h = ground (
    arith,
    busy x (releasing x o) at_i,
    v.fits x,
    le-total (has_slot x) ts i (releasing x o) at_i,
  )
  active-IsEnabled (leaving x o) at_i a h = ground (arith, busy x (leaving x o) at_i)
  active-IsEnabled _ at_i a h = a

notifier-IsEnabled : (d : Directory) (p : Pc) → 0 < holds_observer_mu p → IsEnabled d p
unfolding move
notifier-IsEnabled d (notifying [] k) h e = cc
notifier-IsEnabled d (notifying (l ∷ ls) k) h e = ground arith
notifier-IsEnabled d _ h e = omega arith

reserver-IsEnabled :
    (d : Directory) (p : Pc) → d.observer_mu ≡ false → 0 < holds_mu p → IsEnabled d p
unfolding move
reserver-IsEnabled d (reserving ls k) free h e = ground arith
reserver-IsEnabled d _ free h e = omega arith

-- A goroutine that is neither between calls, nor in a driver's `Open` or in `fn`, nor waiting for a
-- lock, a slot, a drain or the openings, can go on: the deferred `Release` never blocks on a full
-- channel, and no `Done` panics.
pub active_goroutine_moves :
    {observer : Bool} {s : System}
    → Reach observer s
    → (i : ℕ) (p : Pc) → get_elem? s.threads i ≡ some p
    → IsActive p
    → IsEnabled s.dir p
active_goroutine_moves r i p at_i a = active-IsEnabled (Reach-Inv r) i p at_i a

-- If `mu` or `observerMu` is held across steps, the holder of `observerMu`, or else that of `mu`, is a
-- goroutine that can move: the two locks, taken in this order, cannot deadlock.
pub locks_free_up :
    {observer : Bool} {s : System}
    → Reach observer s
    → (s.mu ≡ true) ⊎ (s.observer_mu ≡ true)
    → (i : ℕ) × (p : Pc) × (get_elem? s.threads i ≡ some p)
      × (0 < holds_mu p + holds_observer_mu p)
      × IsEnabled s.dir p
unfolding move
locks_free_up {s} r held = elim (Bool-cases s.observer_mu) [
  | inl taken ↦
      let (i, p, at_i, h) =
        total_pos holds_observer_mu s.threads (ground (arith, (Reach-Inv r).locked)) in
      (i, p, at_i, omega arith, notifier-IsEnabled s.dir p h)
  | inr free ↦
      let (i, p, at_i, h) = total_pos holds_mu s.threads (ground (arith, (Reach-Inv r).locked)) in
      (i, p, at_i, omega arith, reserver-IsEnabled s.dir p free h)
]

-- A removal that drains an entry goes on exactly when no goroutine is between the acquire of that
-- entry and its release; operations on other sources do not hold it up.
pub drain_waits_for_its_entry :
    {observer : Bool} {s : System}
    → Reach observer s
    → (e : ℕ) → IsEnabled s.dir (draining e) ↔ (total (in_flight e) s.threads ≡ 0)
unfolding move
drain_waits_for_its_entry {s} r e = (
  λ go_on. elim (ℕ_discrete (total (in_flight e) s.threads) 0) [
    | yes idle ↦ idle
    | no flying ↦ absurd (go_on (ground (arith, (Reach-Inv r).counts e)))
  ],
  λ idle h. ground (arith, (Reach-Inv r).counts e),
)
