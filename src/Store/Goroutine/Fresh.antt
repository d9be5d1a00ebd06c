-- ===== src/Store/Goroutine/Fresh.antt =====
-- Which entries are allocated: those of the clients that were published.
use dbstore.Common.{
  ℕ, ◌+◌, ◌≤◌, ◌≡◌, none, some, [], ◌∷◌, arith, hit, count, ids, Option-cases, lookup, inl, inr,
  count-delete,
}
use dbstore.Store.Directory.{
  Directory, register_begin, register_commit, remove_entry_begin, remove_all_begin, acquire,
  acquire_source, release,
}
use dbstore.Store.Driver.{open_with}
use dbstore.Store.Protocol.{
  Choice, calls, Call, registers, removes, removes_all, runs, binds, runs_source, registered_as,
  drains, drains_all, Pc, ready, in_open, opened, discarding, finishing, reserving, notifying,
  draining, closing, draining_all, closing_all, awaiting_openings, admitted, waiting, refused,
  granted, running, ended, releasing, leaving,
}
use dbstore.Store.Goroutine.{begin, move}
use dbstore.Store.Goroutine.InFlight.{allocated, Stands}
use dbstore.Store.Goroutine.Ownership.{opened_by}

-- A client that is still to be published.
abbrev pub unpublished : ℕ → Pc → ℕ
unpublished c (opened _ _ x) = hit c x
unpublished c _ = 0

abbrev pub IsFresh : ℕ → Directory → ℕ → Type 0
IsFresh c d n = allocated (d.heap c) + n ≤ opened_by c d

abbrev pub IsAllocated : ℕ → Directory → Type 0
IsAllocated c d = count c (ids d.entries) ≤ allocated (d.heap c)

begin-IsFresh :
    (c : ℕ) (call : Call) (d : Directory) {d' : Directory} {q : Pc}
    → begin call d ≡ some (d', q)
    → (n : ℕ) → IsFresh c d n
    → IsFresh c d' (n + unpublished c q)
unfolding begin register_begin remove_entry_begin remove_all_begin acquire acquire_source
begin-IsFresh c (registers name cfg) d h n f = ground arith
begin-IsFresh c (removes name x) d h n f = ground arith
begin-IsFresh c removes_all d h n f = ground arith
begin-IsFresh c (runs name) d h n f = ground arith
begin-IsFresh c (binds name) d h n f = ground arith
begin-IsFresh c (runs_source name y) d h n f = ground arith

pub move-IsFresh :
    (c : ℕ) (ch : Choice) (d : Directory) (p : Pc) {d' : Directory} {q : Pc}
    → move ch d p ≡ some (d', q)
    → (n : ℕ) → IsFresh c d (n + unpublished c p)
    → IsFresh c d' (n + unpublished c q)
unfolding move register_commit release open_with
move-IsFresh c (calls x) d (ready r) h n v = begin-IsFresh c x d h n (ground arith)
move-IsFresh c _ d (ready r) h n v = cc
move-IsFresh c ch d (in_open n cfg) h m v = ground arith
move-IsFresh c ch d (opened n cfg x) h m v = ground arith
move-IsFresh c ch d (discarding x f) h m v = ground arith
move-IsFresh c ch d (finishing r) h m v = ground arith
move-IsFresh c ch d (reserving ls k) h m v = ground arith
move-IsFresh c ch d (notifying [] (registered_as x)) h m v = ground arith
move-IsFresh c ch d (notifying [] (drains x)) h m v = ground arith
move-IsFresh c ch d (notifying [] (drains_all xs)) h m v = ground arith
move-IsFresh c ch d (notifying (l ∷ ls) k) h m v = ground arith
move-IsFresh c ch d (draining x) h m v = ground arith
move-IsFresh c ch d (closing x) h m v = ground arith
move-IsFresh c ch d (draining_all []) h m v = ground arith
move-IsFresh c ch d (draining_all (x ∷ xs)) h m v = ground arith
move-IsFresh c ch d (closing_all x xs) h m v = ground arith
move-IsFresh c ch d awaiting_openings h m v = ground arith
move-IsFresh c ch d (admitted n x) h m v = ground arith
move-IsFresh c ch d (waiting n x) h m v = ground arith
move-IsFresh c ch d (refused n x f) h m v = ground arith
move-IsFresh c ch d (granted n x) h m v = ground arith
move-IsFresh c ch d (running n x) h m v = ground arith
move-IsFresh c ch d (ended n x o) h m v = ground arith
move-IsFresh c ch d (releasing x o) h m v = ground arith
move-IsFresh c ch d (leaving x r) h m v = ground arith

begin-IsAllocated :
    (c : ℕ) (call : Call) (d : Directory) {d' : Directory} {q : Pc}
    → begin call d ≡ some (d', q)
    → IsAllocated c d
    → IsAllocated c d'
unfolding begin register_begin remove_entry_begin remove_all_begin acquire acquire_source
begin-IsAllocated c (registers name cfg) d h f = ground arith
begin-IsAllocated c (removes name none) d h f = elim (Option-cases (lookup name d.entries)) [
  | inl missing ↦ ground arith
  | inr (e, found) ↦ ground (arith, count-delete c name e d.entries found)
]
begin-IsAllocated c (removes name (some x)) d h f = elim (Option-cases (lookup name d.entries)) [
  | inl missing ↦ ground arith
  | inr (e, found) ↦ ground (arith, count-delete c name e d.entries found)
]
begin-IsAllocated c removes_all d h f = ground arith
begin-IsAllocated c (runs name) d h f = ground arith
begin-IsAllocated c (binds name) d h f = ground arith
begin-IsAllocated c (runs_source name y) d h f = ground arith

pub move-IsAllocated :
    (c : ℕ) (ch : Choice) (d : Directory) (p : Pc) {d' : Directory} {q : Pc}
    → move ch d p ≡ some (d', q)
    → IsAllocated c d
    → Stands d p
    → IsAllocated c d'
unfolding move register_commit release open_with
move-IsAllocated c (calls x) d (ready r) h v s = begin-IsAllocated c x d h v
move-IsAllocated c _ d (ready r) h v s = cc
move-IsAllocated c ch d (in_open n cfg) h v s = ground arith
move-IsAllocated c ch d (opened n cfg x) h v s = ground arith
move-IsAllocated c ch d (discarding x f) h v s = ground arith
move-IsAllocated c ch d (finishing r) h v s = ground arith
move-IsAllocated c ch d (reserving ls k) h v s = ground arith
move-IsAllocated c ch d (notifying [] (registered_as x)) h v s = ground arith
move-IsAllocated c ch d (notifying [] (drains x)) h v s = ground arith
move-IsAllocated c ch d (notifying [] (drains_all xs)) h v s = ground arith
move-IsAllocated c ch d (notifying (l ∷ ls) k) h v s = ground arith
move-IsAllocated c ch d (draining x) h v s = ground arith
move-IsAllocated c ch d (closing x) h v s = ground arith
move-IsAllocated c ch d (draining_all []) h v s = ground arith
move-IsAllocated c ch d (draining_all (x ∷ xs)) h v s = ground arith
move-IsAllocated c ch d (closing_all x xs) h v s = ground arith
move-IsAllocated c ch d awaiting_openings h v s = ground arith
move-IsAllocated c ch d (admitted n x) h v s = ground arith
move-IsAllocated c ch d (waiting n x) h v s = ground arith
move-IsAllocated c ch d (refused n x f) h v s = ground arith
move-IsAllocated c ch d (granted n x) h v s = ground arith
move-IsAllocated c ch d (running n x) h v s = ground arith
move-IsAllocated c ch d (ended n x o) h v s = ground arith
move-IsAllocated c ch d (releasing x o) h v s = ground arith
move-IsAllocated c ch d (leaving x r) h v s = ground arith
