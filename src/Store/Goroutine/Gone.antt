-- ===== src/Store/Goroutine/Gone.antt =====
-- An entry that has left the map does not come back, and the drivers of a frozen registry stay.
use dbstore.Common.{
  ℕ, ◌≡◌, true, none, some, [], ◌∷◌, arith, count, ids, Option-cases, lookup, inl, inr,
  count-delete,
}
use dbstore.Store.Directory.{
  Directory, register_begin, register_commit, remove_entry_begin, remove_all_begin, acquire,
  acquire_source, release,
}
use dbstore.Store.Driver.{open_with}
use dbstore.Store.Protocol.{
  Choice, calls, Call, registers, removes, removes_all, runs, binds, runs_source, registered_as,
  drains, drains_all, Pc, ready, in_open, opened, discarding, finishing, reserving, notifying,
  draining, closing, draining_all, closing_all, awaiting_openings, admitted, waiting, refused,
  granted, running, ended, releasing, leaving,
}
use dbstore.Store.Goroutine.{begin, move}
use dbstore.Store.Goroutine.InFlight.{allocated, Stands}

abbrev pub IsGone : ℕ → Directory → Type 0
IsGone c d = (allocated (d.heap c) ≡ 1) × (count c (ids d.entries) ≡ 0)

begin-IsGone :
    (c : ℕ) (call : Call) (d : Directory) {d' : Directory} {q : Pc}
    → begin call d ≡ some (d', q)
    → IsGone c d
    → IsGone c d'
unfolding begin register_begin remove_entry_begin remove_all_begin acquire acquire_source
begin-IsGone c (registers name cfg) d h f = ground arith
begin-IsGone c (removes name none) d h f = elim (Option-cases (lookup name d.entries)) [
  | inl missing ↦ ground arith
  | inr (e, found) ↦ ground (arith, count-delete c name e d.entries found)
]
begin-IsGone c (removes name (some x)) d h f = elim (Option-cases (lookup name d.entries)) [
  | inl missing ↦ ground arith
  | inr (e, found) ↦ ground (arith, count-delete c name e d.entries found)
]
begin-IsGone c removes_all d h f = ground arith
begin-IsGone c (runs name) d h f = ground arith
begin-IsGone c (binds name) d h f = ground arith
begin-IsGone c (runs_source name y) d h f = ground arith

pub move-IsGone :
    (c : ℕ) (ch : Choice) (d : Directory) (p : Pc) {d' : Directory} {q : Pc}
    → Stands d p
    → move ch d p ≡ some (d', q)
    → IsGone c d
    → IsGone c d'
unfolding move register_commit release open_with
move-IsGone c (calls x) d (ready r) s h v = begin-IsGone c x d h v
move-IsGone c _ d (ready r) s h v = cc
move-IsGone c ch d (in_open n cfg) s h v = ground arith
move-IsGone c ch d (opened n cfg x) s h v = ground arith
move-IsGone c ch d (discarding x f) s h v = ground arith
move-IsGone c ch d (finishing r) s h v = ground arith
move-IsGone c ch d (reserving ls k) s h v = ground arith
move-IsGone c ch d (notifying [] (registered_as x)) s h v = ground arith
move-IsGone c ch d (notifying [] (drains x)) s h v = ground arith
move-IsGone c ch d (notifying [] (drains_all xs)) s h v = ground arith
move-IsGone c ch d (notifying (l ∷ ls) k) s h v = ground arith
move-IsGone c ch d (draining x) s h v = ground arith
move-IsGone c ch d (closing x) s h v = ground arith
move-IsGone c ch d (draining_all []) s h v = ground arith
move-IsGone c ch d (draining_all (x ∷ xs)) s h v = ground arith
move-IsGone c ch d (closing_all x xs) s h v = ground arith
move-IsGone c ch d awaiting_openings s h v = ground arith
move-IsGone c ch d (admitted n x) s h v = ground arith
move-IsGone c ch d (waiting n x) s h v = ground arith
move-IsGone c ch d (refused n x f) s h v = ground arith
move-IsGone c ch d (granted n x) s h v = ground arith
move-IsGone c ch d (running n x) s h v = ground arith
move-IsGone c ch d (ended n x o) s h v = ground arith
move-IsGone c ch d (releasing x o) s h v = ground arith
move-IsGone c ch d (leaving x r) s h v = ground arith

-- A goroutine leaves the drivers alone, and only ever freezes the registry.
abbrev IsSettled : Directory → Directory → Type 0
IsSettled d d' =
    (d'.registry.builders ≡ d.registry.builders)
    × ((d.registry.frozen ≡ true) → (d'.registry.frozen ≡ true))

begin-IsSettled :
    (call : Call) (d : Directory) {d' : Directory} {q : Pc}
    → begin call d ≡ some (d', q)
    → IsSettled d d'
unfolding begin register_begin remove_entry_begin remove_all_begin acquire acquire_source
begin-IsSettled (registers name cfg) d h = ground arith
begin-IsSettled (removes name x) d h = ground arith
begin-IsSettled removes_all d h = ground arith
begin-IsSettled (runs name) d h = ground arith
begin-IsSettled (binds name) d h = ground arith
begin-IsSettled (runs_source name y) d h = ground arith

pub move-IsSettled :
    (ch : Choice) (d : Directory) (p : Pc) {d' : Directory} {q : Pc}
    → move ch d p ≡ some (d', q)
    → IsSettled d d'
unfolding move register_commit release open_with
move-IsSettled (calls x) d (ready r) h = begin-IsSettled x d h
move-IsSettled _ d (ready r) h = absurd (cc)
move-IsSettled ch d (in_open n cfg) h = ground arith
move-IsSettled ch d (opened n cfg x) h = ground arith
move-IsSettled ch d (discarding x f) h = ground arith
move-IsSettled ch d (finishing r) h = ground arith
move-IsSettled ch d (reserving ls k) h = ground arith
move-IsSettled ch d (notifying [] (registered_as x)) h = ground arith
move-IsSettled ch d (notifying [] (drains x)) h = ground arith
move-IsSettled ch d (notifying [] (drains_all xs)) h = ground arith
move-IsSettled ch d (notifying (l ∷ ls) k) h = ground arith
move-IsSettled ch d (draining x) h = ground arith
move-IsSettled ch d (closing x) h = ground arith
move-IsSettled ch d (draining_all []) h = ground arith
move-IsSettled ch d (draining_all (x ∷ xs)) h = ground arith
move-IsSettled ch d (closing_all x xs) h = ground arith
move-IsSettled ch d awaiting_openings h = ground arith
move-IsSettled ch d (admitted n x) h = ground arith
move-IsSettled ch d (waiting n x) h = ground arith
move-IsSettled ch d (refused n x f) h = ground arith
move-IsSettled ch d (granted n x) h = ground arith
move-IsSettled ch d (running n x) h = ground arith
move-IsSettled ch d (ended n x o) h = ground arith
move-IsSettled ch d (releasing x o) h = ground arith
move-IsSettled ch d (leaving x r) h = ground arith
