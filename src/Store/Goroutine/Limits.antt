-- ===== src/Store/Goroutine/Limits.antt =====
-- The capacity of a throttle is the `MaxConcurrency` of its source, and stays so.
use dbstore.Common.{ℕ, zero, suc, ◌≡◌, refl, Option, none, some, [], ◌∷◌, arith, ℤ, pos, negsuc}
use dbstore.Store.Throttle
use dbstore.Store.Throttle.{
  Throttle, unlimited, sem, acquire_check, receive, new_throttle, new_throttle_lem, tokens,
  capacity,
}
use dbstore.Store.Directory.{
  Entry, Directory, register_begin, register_commit, remove_entry_begin, remove_all_begin, acquire,
  acquire_source, release,
}
use dbstore.Store.Driver.{open_with}
use dbstore.Store.Protocol.{
  Choice, calls, Call, registers, removes, removes_all, runs, binds, runs_source, registered_as,
  drains, drains_all, Pc, ready, in_open, opened, discarding, finishing, reserving, notifying,
  draining, closing, draining_all, closing_all, awaiting_openings, admitted, waiting, refused,
  granted, running, ended, releasing, leaving,
}
use dbstore.Store.Goroutine.{begin, move}

-- The limit that a `MaxConcurrency` sets; 0 stands for none.
abbrev pub limit : ℤ → ℕ
limit (pos n) = n
limit (negsuc n) = 0

abbrev pub IsLimited : Option Entry → Type 0
IsLimited none = Unit {0}
IsLimited (some x) = capacity x.throttle ≡ limit x.max_concurrency

new_throttle-capacity : (max : ℤ) → capacity (new_throttle max) ≡ limit max
unfolding new_throttle
new_throttle-capacity (pos zero) = refl
new_throttle-capacity (pos (suc n)) = rw new_throttle_lem
new_throttle-capacity (negsuc n) = refl

begin-IsLimited :
    (e : ℕ) (call : Call) (d : Directory) {d' : Directory} {q : Pc}
    → begin call d ≡ some (d', q)
    → IsLimited (d.heap e)
    → IsLimited (d'.heap e)
unfolding begin register_begin remove_entry_begin remove_all_begin acquire acquire_source
begin-IsLimited e (registers name cfg) d h f = ground arith
begin-IsLimited e (removes name x) d h f = ground arith
begin-IsLimited e removes_all d h f = ground arith
begin-IsLimited e (runs name) d h f = ground arith
begin-IsLimited e (binds name) d h f = ground arith
begin-IsLimited e (runs_source name y) d h f = ground arith

pub move-IsLimited :
    (e : ℕ) (ch : Choice) (d : Directory) (p : Pc) {d' : Directory} {q : Pc}
    → move ch d p ≡ some (d', q)
    → IsLimited (d.heap e)
    → IsLimited (d'.heap e)
unfolding move register_commit release open_with acquire_check receive Throttle.release
move-IsLimited e (calls x) d (ready r) h c = begin-IsLimited e x d h c
move-IsLimited e _ d (ready r) h c = cc
move-IsLimited e ch d (in_open n cfg) h c = ground arith
move-IsLimited e ch d (opened n cfg x) h c =
    ground (arith, new_throttle-capacity cfg.pool_config.max_concurrency)
move-IsLimited e ch d (discarding x f) h c = ground arith
move-IsLimited e ch d (finishing r) h c = ground arith
move-IsLimited e ch d (reserving ls k) h c = ground arith
move-IsLimited e ch d (notifying [] (registered_as x)) h c = ground arith
move-IsLimited e ch d (notifying [] (drains x)) h c = ground arith
move-IsLimited e ch d (notifying [] (drains_all xs)) h c = ground arith
move-IsLimited e ch d (notifying (l ∷ ls) k) h c = ground arith
move-IsLimited e ch d (draining x) h c = ground arith
move-IsLimited e ch d (closing x) h c = ground arith
move-IsLimited e ch d (draining_all []) h c = ground arith
move-IsLimited e ch d (draining_all (x ∷ xs)) h c = ground arith
move-IsLimited e ch d (closing_all x xs) h c = ground arith
move-IsLimited e ch d awaiting_openings h c = ground arith
move-IsLimited e ch d (admitted n x) h c = ground arith
move-IsLimited e ch d (waiting n x) h c = ground arith
move-IsLimited e ch d (refused n x f) h c = ground arith
move-IsLimited e ch d (granted n x) h c = ground arith
move-IsLimited e ch d (running n x) h c = ground arith
move-IsLimited e ch d (ended n x o) h c = ground arith
move-IsLimited e ch d (releasing x o) h c = ground arith
move-IsLimited e ch d (leaving x r) h c = ground arith
