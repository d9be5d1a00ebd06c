-- ===== src/Store/Goroutine/Shutdown.antt =====
-- What `RemoveAll` has achieved at each of its stages.
use dbstore.Common.{ℕ, ◌+◌, ◌≡◌, true, false, some, [], ◌∷◌, arith, ◌⊎◌}
use dbstore.Store.Directory.{
  Directory, register_begin, register_commit, remove_entry_begin, remove_all_begin, acquire,
  acquire_source, release,
}
use dbstore.Store.Driver.{open_with}
use dbstore.Store.Protocol.{
  closed_all, Reply, Choice, calls, Call, registers, removes, removes_all, runs, binds, runs_source,
  After, registered_as, drains, drains_all, Pc, ready, in_open, opened, discarding, finishing,
  reserving, notifying, draining, closing, draining_all, closing_all, awaiting_openings, admitted,
  waiting, refused, granted, running, ended, releasing, leaving,
}
use dbstore.Store.Goroutine.{begin, move}

-- Past the first hold of `mu` of a `RemoveAll`; and past the whole of it.
abbrev after_shuts : After → ℕ
after_shuts (drains_all _) = 1
after_shuts _ = 0

abbrev pub shuts : Pc → ℕ
shuts (reserving _ k) = after_shuts k
shuts (notifying _ k) = after_shuts k
shuts (draining_all _) = 1
shuts (closing_all _ _) = 1
shuts awaiting_openings = 1
shuts (ready closed_all) = 1
shuts _ = 0

abbrev pub has_shut : Pc → ℕ
has_shut (ready closed_all) = 1
has_shut _ = 0

abbrev pub IsShut : Directory → ℕ → ℕ → Type 0
IsShut d a b =
    ((d.closed ≡ true) ⊎ (a ≡ 0))
    × (((d.closed ≡ true) × (d.openings ≡ 0)) ⊎ (b ≡ 0))
    × ((d.closed ≡ false) ⊎ (d.entries ≡ []))

begin-IsShut :
    (call : Call) (d : Directory) {d' : Directory} {q : Pc}
    → begin call d ≡ some (d', q)
    → (a b : ℕ) → IsShut d a b
    → IsShut d' (a + shuts q) (b + has_shut q)
unfolding begin register_begin remove_entry_begin remove_all_begin acquire acquire_source
begin-IsShut (registers name cfg) d h a b v = ground arith
begin-IsShut (removes name x) d h a b v = ground arith
begin-IsShut removes_all d h a b v = ground arith
begin-IsShut (runs name) d h a b v = ground arith
begin-IsShut (binds name) d h a b v = ground arith
begin-IsShut (runs_source name y) d h a b v = ground arith

-- A goroutine that makes its next call no longer stands for the reply of the one before.
ready-IsShut :
    (d : Directory) (r : Reply) (a b : ℕ)
    → IsShut d (a + shuts (ready r)) (b + has_shut (ready r))
    → IsShut d a b
ready-IsShut d r a b v = ground arith

pub move-IsShut :
    (ch : Choice) (d : Directory) (p : Pc) {d' : Directory} {q : Pc}
    → move ch d p ≡ some (d', q)
    → (a b : ℕ) → IsShut d (a + shuts p) (b + has_shut p)
    → IsShut d' (a + shuts q) (b + has_shut q)
unfolding move register_commit release open_with
move-IsShut (calls x) d (ready r) h a b v = begin-IsShut x d h a b (ready-IsShut d r a b v)
move-IsShut _ d (ready r) h a b v = cc
move-IsShut ch d (in_open n cfg) h a b v = ground arith
move-IsShut ch d (opened n cfg x) h a b v = ground arith
move-IsShut ch d (discarding x f) h a b v = ground arith
move-IsShut ch d (finishing r) h a b v = ground arith
move-IsShut ch d (reserving ls k) h a b v = ground arith
move-IsShut ch d (notifying [] (registered_as x)) h a b v = ground arith
move-IsShut ch d (notifying [] (drains x)) h a b v = ground arith
move-IsShut ch d (notifying [] (drains_all xs)) h a b v = ground arith
move-IsShut ch d (notifying (m ∷ ls) k) h a b v = ground arith
move-IsShut ch d (draining x) h a b v = ground arith
move-IsShut ch d (closing x) h a b v = ground arith
move-IsShut ch d (draining_all []) h a b v = ground arith
move-IsShut ch d (draining_all (x ∷ xs)) h a b v = ground arith
move-IsShut ch d (closing_all x xs) h a b v = ground arith
move-IsShut ch d awaiting_openings h a b v = ground arith
move-IsShut ch d (admitted n x) h a b v = ground arith
move-IsShut ch d (waiting n x) h a b v = ground arith
move-IsShut ch d (refused n x f) h a b v = ground arith
move-IsShut ch d (granted n x) h a b v = ground arith
move-IsShut ch d (running n x) h a b v = ground arith
move-IsShut ch d (ended n x o) h a b v = ground arith
move-IsShut ch d (releasing x o) h a b v = ground arith
move-IsShut ch d (leaving x r) h a b v = ground arith
