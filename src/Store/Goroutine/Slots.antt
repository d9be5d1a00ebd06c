-- ===== src/Store/Goroutine/Slots.antt =====
-- The tokens of a throttle and the goroutines that took one.
use dbstore.Common.{ℕ, zero, suc, ◌+◌, ◌≡◌, some, [], ◌∷◌, arith, ℤ, pos, negsuc}
use dbstore.Store.Throttle
use dbstore.Store.Throttle.{
  Throttle, unlimited, sem, acquire_check, receive, new_throttle, new_throttle_lem, tokens,
  capacity,
}
use dbstore.Store.Directory.{
  Directory, register_begin, register_commit, remove_entry_begin, remove_all_begin, acquire,
  acquire_source, release,
}
use dbstore.Store.Driver.{open_with}
use dbstore.Store.Protocol.{
  Choice, calls, Call, registers, removes, removes_all, runs, binds, runs_source, registered_as,
  drains, drains_all, Pc, ready, in_open, opened, discarding, finishing, reserving, notifying,
  draining, closing, draining_all, closing_all, awaiting_openings, admitted, waiting, refused,
  granted, running, ended, releasing, leaving,
}
use dbstore.Store.Goroutine.{begin, move}
use dbstore.Store.Goroutine.InFlight.{has_slot, Fits, FitsThrottle, Stands}

new_throttle-Fits : (max : ℤ) → FitsThrottle (new_throttle max) 0
unfolding new_throttle
new_throttle-Fits (pos zero) = tt
new_throttle-Fits (pos (suc n)) = rw new_throttle_lem (omega arith)
new_throttle-Fits (negsuc n) = tt

begin-Fits :
    (e : ℕ) (call : Call) (d : Directory) {d' : Directory} {q : Pc}
    → begin call d ≡ some (d', q)
    → (n : ℕ) → Fits (d.heap e) n
    → Fits (d'.heap e) (n + has_slot e q)
unfolding begin register_begin remove_entry_begin remove_all_begin acquire acquire_source
begin-Fits e (registers name cfg) d h n f = ground arith
begin-Fits e (removes name x) d h n f = ground arith
begin-Fits e removes_all d h n f = ground arith
begin-Fits e (runs name) d h n f = ground arith
begin-Fits e (binds name) d h n f = ground arith
begin-Fits e (runs_source name y) d h n f = ground arith

pub move-Fits :
    (e : ℕ) (ch : Choice) (d : Directory) (p : Pc) {d' : Directory} {q : Pc}
    → Stands d p
    → move ch d p ≡ some (d', q)
    → (n : ℕ) → Fits (d.heap e) (n + has_slot e p)
    → Fits (d'.heap e) (n + has_slot e q)
unfolding move register_commit release open_with acquire_check receive Throttle.release
move-Fits e (calls x) d (ready r) s h n c = begin-Fits e x d h n (ground arith)
move-Fits e _ d (ready r) s h n c = cc
move-Fits e ch d (in_open n cfg) s h m c = ground arith
move-Fits e ch d (opened n cfg x) s h m c =
    ground (arith, new_throttle-Fits cfg.pool_config.max_concurrency)
move-Fits e ch d (discarding x f) s h m c = ground arith
move-Fits e ch d (finishing r) s h m c = ground arith
move-Fits e ch d (reserving ls k) s h m c = ground arith
move-Fits e ch d (notifying [] (registered_as x)) s h m c = ground arith
move-Fits e ch d (notifying [] (drains x)) s h m c = ground arith
move-Fits e ch d (notifying [] (drains_all xs)) s h m c = ground arith
move-Fits e ch d (notifying (l ∷ ls) k) s h m c = ground arith
move-Fits e ch d (draining x) s h m c = ground arith
move-Fits e ch d (closing x) s h m c = ground arith
move-Fits e ch d (draining_all []) s h m c = ground arith
move-Fits e ch d (draining_all (x ∷ xs)) s h m c = ground arith
move-Fits e ch d (closing_all x xs) s h m c = ground arith
move-Fits e ch d awaiting_openings s h m c = ground arith
move-Fits e ch d (admitted n x) s h m c = ground arith
move-Fits e ch d (waiting n x) s h m c = ground arith
move-Fits e ch d (refused n x f) s h m c = ground arith
move-Fits e ch d (granted n x) s h m c = ground arith
move-Fits e ch d (running n x) s h m c = ground arith
move-Fits e ch d (ended n x o) s h m c = ground arith
move-Fits e ch d (releasing x o) s h m c = ground arith
move-Fits e ch d (leaving x r) s h m c = ground arith
