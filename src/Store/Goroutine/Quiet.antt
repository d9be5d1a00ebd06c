-- ===== src/Store/Goroutine/Quiet.antt =====
-- A client is closed only once its entry has no operation left, and no operation can join it later.
use dbstore.Common.{
  ℕ, ◌+◌, ◌≤◌, ◌≡◌, some, [], ◌∷◌, arith, hit, count, ids, Option-cases, lookup, inl, inr,
  count-lookup, ◌⊎◌,
}
use dbstore.Store.Directory.{
  Directory, register_begin, register_commit, remove_entry_begin, remove_all_begin, acquire,
  acquire_source, release,
}
use dbstore.Store.Driver.{open_with}
use dbstore.Store.Protocol.{
  Choice, calls, Call, registers, removes, removes_all, runs, binds, runs_source, registered_as,
  drains, drains_all, Pc, ready, in_open, opened, discarding, finishing, reserving, notifying,
  draining, closing, draining_all, closing_all, awaiting_openings, admitted, waiting, refused,
  granted, running, ended, releasing, leaving,
}
use dbstore.Store.Goroutine.{begin, move}
use dbstore.Store.Goroutine.InFlight.{counted, Stands}

-- Before a `closeClient`: past the `wg.Wait()` of a removal, or with a client not published.
abbrev pub closes : ℕ → Pc → ℕ
closes c (discarding x _) = hit c x
closes c (closing x) = hit c x
closes c (closing_all x _) = hit c x
closes c _ = 0

abbrev pub IsQuiet : ℕ → Directory → ℕ → Type 0
IsQuiet c d n = (count c d.closed_clients + n ≡ 0) ⊎ (counted (d.heap c) ≡ 0)

-- A client of the map is not closed, and nobody is about to close it.
abbrev pub IsApart : ℕ → Directory → ℕ → Type 0
IsApart c d n = count c (ids d.entries) + (count c d.closed_clients + n) ≤ 1

begin-IsQuiet :
    (c : ℕ) (call : Call) (d : Directory) {d' : Directory} {q : Pc}
    → begin call d ≡ some (d', q)
    → (n : ℕ) → IsApart c d n
    → IsQuiet c d n
    → IsQuiet c d' (n + closes c q)
unfolding begin register_begin remove_entry_begin remove_all_begin acquire acquire_source
begin-IsQuiet c (registers name cfg) d h n a v = ground arith
begin-IsQuiet c (removes name x) d h n a v = ground arith
begin-IsQuiet c removes_all d h n a v = ground arith
begin-IsQuiet c (runs name) d h n a v = elim (Option-cases (lookup name d.entries)) [
  | inl missing ↦ ground arith
  | inr (x, found) ↦ ground (arith, count-lookup name x d.entries found)
]
begin-IsQuiet c (binds name) d h n a v = ground arith
begin-IsQuiet c (runs_source name y) d h n a v = elim (Option-cases (lookup name d.entries)) [
  | inl missing ↦ ground arith
  | inr (x, found) ↦ ground (arith, count-lookup name x d.entries found)
]

pub move-IsQuiet :
    (c : ℕ) (ch : Choice) (d : Directory) (p : Pc) {d' : Directory} {q : Pc}
    → Stands d p
    → move ch d p ≡ some (d', q)
    → (n : ℕ) → IsApart c d (n + closes c p)
    → IsQuiet c d (n + closes c p)
    → IsQuiet c d' (n + closes c q)
unfolding move register_commit release open_with
move-IsQuiet c (calls x) d (ready r) s h n a v =
    begin-IsQuiet c x d h n (ground arith) (ground arith)
move-IsQuiet c _ d (ready r) s h n a v = cc
move-IsQuiet c ch d (in_open n cfg) s h m a v = ground arith
move-IsQuiet c ch d (opened n cfg x) s h m a v = ground arith
move-IsQuiet c ch d (discarding x f) s h m a v = ground arith
move-IsQuiet c ch d (finishing r) s h m a v = ground arith
move-IsQuiet c ch d (reserving ls k) s h m a v = ground arith
move-IsQuiet c ch d (notifying [] (registered_as x)) s h m a v = ground arith
move-IsQuiet c ch d (notifying [] (drains x)) s h m a v = ground arith
move-IsQuiet c ch d (notifying [] (drains_all xs)) s h m a v = ground arith
move-IsQuiet c ch d (notifying (l ∷ ls) k) s h m a v = ground arith
move-IsQuiet c ch d (draining x) s h m a v = ground arith
move-IsQuiet c ch d (closing x) s h m a v = ground arith
move-IsQuiet c ch d (draining_all []) s h m a v = ground arith
move-IsQuiet c ch d (draining_all (x ∷ xs)) s h m a v = ground arith
move-IsQuiet c ch d (closing_all x xs) s h m a v = ground arith
move-IsQuiet c ch d awaiting_openings s h m a v = ground arith
move-IsQuiet c ch d (admitted n x) s h m a v = ground arith
move-IsQuiet c ch d (waiting n x) s h m a v = ground arith
move-IsQuiet c ch d (refused n x f) s h m a v = ground arith
move-IsQuiet c ch d (granted n x) s h m a v = ground arith
move-IsQuiet c ch d (running n x) s h m a v = ground arith
move-IsQuiet c ch d (ended n x o) s h m a v = ground arith
move-IsQuiet c ch d (releasing x o) s h m a v = ground arith
move-IsQuiet c ch d (leaving x r) s h m a v = ground arith
