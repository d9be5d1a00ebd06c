-- ===== src/Store/Goroutine/Size.antt =====
-- The number of names in the map is the number of registrations so far less that of removals.
use dbstore.Common.{
  ℕ, ◌+◌, ◌≡◌, refl, none, some, List, [], ◌∷◌, ◌++◌, String, arith, Option-cases, lookup, delete,
  inl, inr, map, total, total-append,
}
use dbstore.Store.Directory.{
  Directory, Lifecycle, source_registered, source_removed, names, register_begin, register_commit,
  remove_entry_begin, remove_all_begin, acquire, acquire_source, release,
}
use dbstore.Store.Driver.{open_with}
use dbstore.Store.Protocol.{
  Choice, calls, Call, registers, removes, removes_all, runs, binds, runs_source, registered_as,
  drains, drains_all, Pc, ready, in_open, opened, discarding, finishing, reserving, notifying,
  draining, closing, draining_all, closing_all, awaiting_openings, admitted, waiting, refused,
  granted, running, ended, releasing, leaving,
}
use dbstore.Store.Goroutine.{begin, move}
use dbstore.Common.{length, suc, Bool}
use dbstore.Store.Directory.{new_directory}
use dbstore.Store.Goroutine.System.{System, starts, moves, registers_driver, Reach, here, next}

abbrev pub registrations : Lifecycle → ℕ
registrations (source_registered _) = 1
registrations (source_removed _) = 0

abbrev pub removals : Lifecycle → ℕ
removals (source_registered _) = 0
removals (source_removed _) = 1

abbrev pub IsSized : Directory → Type 0
IsSized d = total registrations d.history ≡ total removals d.history + length d.entries

length-delete :
    (n : String) (x : ℕ) (m : List (String × ℕ))
    → lookup n m ≡ some x
    → suc (length (delete n m)) ≡ length m
length-delete n x [] h = cc
length-delete n x ((j, v) ∷ m) h = ground (arith, length-delete n x m)

registrations-removed :
    (m : List (String × ℕ)) → total registrations (map source_removed (names m)) ≡ 0
registrations-removed [] = refl
registrations-removed ((j, v) ∷ m) = omega (arith, registrations-removed m)

removals-removed :
    (m : List (String × ℕ)) → total removals (map source_removed (names m)) ≡ length m
removals-removed [] = refl
removals-removed ((j, v) ∷ m) = omega (arith, removals-removed m)

removes-IsSized :
    (n : String) (e : ℕ) (d : Directory)
    → lookup n d.entries ≡ some e
    → IsSized d
    → IsSized
        (record d { entries = delete n d.entries; history = d.history ++ source_removed n ∷ [] })
removes-IsSized n e d found v = omega (
  arith,
  length-delete n e d.entries found,
  total-append registrations d.history (source_removed n ∷ []),
  total-append removals d.history (source_removed n ∷ []),
)

begin-IsSized :
    (call : Call) (d : Directory) {d' : Directory} {q : Pc}
    → begin call d ≡ some (d', q)
    → IsSized d
    → IsSized d'
unfolding begin register_begin remove_entry_begin remove_all_begin acquire acquire_source
begin-IsSized (registers name cfg) d h f = ground arith
begin-IsSized (removes name none) d h f = elim (Option-cases (lookup name d.entries)) [
  | inl missing ↦ ground arith
  | inr (e, found) ↦ ground (arith, removes-IsSized name e d found f)
]
begin-IsSized (removes name (some x)) d h f = elim (Option-cases (lookup name d.entries)) [
  | inl missing ↦ ground arith
  | inr (e, found) ↦ ground (arith, removes-IsSized name e d found f)
]
begin-IsSized removes_all d h f = ground (
  arith,
  total-append registrations d.history (map source_removed (names d.entries)),
  total-append removals d.history (map source_removed (names d.entries)),
  registrations-removed d.entries,
  removals-removed d.entries,
)
begin-IsSized (runs name) d h f = ground arith
begin-IsSized (binds name) d h f = ground arith
begin-IsSized (runs_source name y) d h f = ground arith

commit-IsSized :
    (n : String) (c : ℕ) (d : Directory)
    → IsSized d
    → IsSized
        (record d { entries = (n, c) ∷ d.entries; history = d.history ++ source_registered n ∷ [] })
commit-IsSized n c d v = omega (
  arith,
  total-append registrations d.history (source_registered n ∷ []),
  total-append removals d.history (source_registered n ∷ []),
)

move-IsSized :
    (ch : Choice) (d : Directory) (p : Pc) {d' : Directory} {q : Pc}
    → move ch d p ≡ some (d', q)
    → IsSized d
    → IsSized d'
unfolding move register_commit release open_with
move-IsSized (calls x) d (ready r) h v = begin-IsSized x d h v
move-IsSized _ d (ready r) h v = cc
move-IsSized ch d (in_open n cfg) h v = ground arith
move-IsSized ch d (opened n cfg x) h v = elim (Option-cases (lookup n d.entries)) [
  | inl missing ↦ ground (arith, commit-IsSized n x d v)
  | inr (e, found) ↦ ground arith
]
move-IsSized ch d (discarding x f) h v = ground arith
move-IsSized ch d (finishing r) h v = ground arith
move-IsSized ch d (reserving ls k) h v = ground arith
move-IsSized ch d (notifying [] (registered_as x)) h v = ground arith
move-IsSized ch d (notifying [] (drains x)) h v = ground arith
move-IsSized ch d (notifying [] (drains_all xs)) h v = ground arith
move-IsSized ch d (notifying (l ∷ ls) k) h v = ground arith
move-IsSized ch d (draining x) h v = ground arith
move-IsSized ch d (closing x) h v = ground arith
move-IsSized ch d (draining_all []) h v = ground arith
move-IsSized ch d (draining_all (x ∷ xs)) h v = ground arith
move-IsSized ch d (closing_all x xs) h v = ground arith
move-IsSized ch d awaiting_openings h v = ground arith
move-IsSized ch d (admitted n x) h v = ground arith
move-IsSized ch d (waiting n x) h v = ground arith
move-IsSized ch d (refused n x f) h v = ground arith
move-IsSized ch d (granted n x) h v = ground arith
move-IsSized ch d (running n x) h v = ground arith
move-IsSized ch d (ended n x o) h v = ground arith
move-IsSized ch d (releasing x o) h v = ground arith
move-IsSized ch d (leaving x r) h v = ground arith

pub Reach-IsSized : {observer : Bool} {s : System} → Reach observer s → IsSized s.dir
unfolding new_directory
Reach-IsSized here = refl
Reach-IsSized (next r starts) = Reach-IsSized r
Reach-IsSized (next r (moves i ch p at_i e)) = move-IsSized ch _ p e (Reach-IsSized r)
Reach-IsSized (next r (registers_driver name b e)) = Reach-IsSized r
