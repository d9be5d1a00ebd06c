-- ===== src/Store/Goroutine/Keys.antt =====
-- The names of the map do not repeat, and are those that the changes so far leave.
use dbstore.Common.{
  ℕ, ◌+◌, ◌≤◌, ◌≡◌, refl, none, some, List, [], ◌∷◌, ◌++◌, String, arith, if◌then◌else◌,
  Option-cases, lookup, delete, inl, inr, str_eq, eq_iff, map, total, total-append,
}
use dbstore.Store.Directory.{
  Directory, Lifecycle, source_registered, source_removed, names, register_begin, register_commit,
  remove_entry_begin, remove_all_begin, acquire, acquire_source, release,
}
use dbstore.Store.Driver.{open_with}
use dbstore.Store.Protocol.{
  Choice, calls, Call, registers, removes, removes_all, runs, binds, runs_source, registered_as,
  drains, drains_all, Pc, ready, in_open, opened, discarding, finishing, reserving, notifying,
  draining, closing, draining_all, closing_all, awaiting_openings, admitted, waiting, refused,
  granted, running, ended, releasing, leaving,
}
use dbstore.Store.Goroutine.{begin, move}

abbrev same : String → String → ℕ
same j k = if str_eq j k then 1 else 0

-- How often a name stands in the map.
abbrev pub occurs : String → List (String × ℕ) → ℕ
occurs k [] = 0
occurs k ((j, v) ∷ m) = same j k + occurs k m

abbrev pub adds : String → Lifecycle → ℕ
adds k (source_registered j) = same j k
adds k (source_removed j) = 0

abbrev pub drops : String → Lifecycle → ℕ
drops k (source_registered j) = 0
drops k (source_removed j) = same j k

-- A name is there once if it was registered once more than it was removed, and otherwise not.
abbrev pub IsTallied : String → Directory → Type 0
IsTallied k d =
    (total (adds k) d.history ≡ total (drops k) d.history + occurs k d.entries)
    × (occurs k d.entries ≤ 1)

occurs-none : (k : String) (m : List (String × ℕ)) → lookup k m ≡ none → occurs k m ≡ 0
occurs-none k [] h = refl
occurs-none k ((j, v) ∷ m) h = ground (arith, occurs-none k m)

occurs-delete :
    (k n : String) (x : ℕ) (m : List (String × ℕ))
    → lookup n m ≡ some x
    → occurs k (delete n m) + same n k ≡ occurs k m
occurs-delete k n x [] h = cc
occurs-delete k n x ((j, v) ∷ m) h = ground (arith, occurs-delete k n x m, eq_iff j n)

adds-removed :
    (k : String) (m : List (String × ℕ)) → total (adds k) (map source_removed (names m)) ≡ 0
adds-removed k [] = refl
adds-removed k ((j, v) ∷ m) = omega (arith, adds-removed k m)

drops-removed :
    (k : String) (m : List (String × ℕ))
    → total (drops k) (map source_removed (names m)) ≡ occurs k m
drops-removed k [] = refl
drops-removed k ((j, v) ∷ m) = omega (arith, drops-removed k m)

removes-IsTallied :
    (k n : String) (x e : ℕ) (d : Directory)
    → lookup n d.entries ≡ some e
    → IsTallied k d
    → IsTallied k
        (record d { entries = delete n d.entries; history = d.history ++ source_removed n ∷ [] })
removes-IsTallied k n x e d found v = ground (
  arith,
  occurs-delete k n e d.entries found,
  total-append (adds k) d.history (source_removed n ∷ []),
  total-append (drops k) d.history (source_removed n ∷ []),
)

begin-IsTallied :
    (k : String) (call : Call) (d : Directory) {d' : Directory} {q : Pc}
    → begin call d ≡ some (d', q)
    → IsTallied k d
    → IsTallied k d'
unfolding begin register_begin remove_entry_begin remove_all_begin acquire acquire_source
begin-IsTallied k (registers name cfg) d h f = ground arith
begin-IsTallied k (removes name none) d h f = elim (Option-cases (lookup name d.entries)) [
  | inl missing ↦ ground arith
  | inr (e, found) ↦ ground (arith, removes-IsTallied k name 0 e d found f)
]
begin-IsTallied k (removes name (some x)) d h f = elim (Option-cases (lookup name d.entries)) [
  | inl missing ↦ ground arith
  | inr (e, found) ↦ ground (arith, removes-IsTallied k name x e d found f)
]
begin-IsTallied k removes_all d h f = ground (
  arith,
  total-append (adds k) d.history (map source_removed (names d.entries)),
  total-append (drops k) d.history (map source_removed (names d.entries)),
  adds-removed k d.entries,
  drops-removed k d.entries,
)
begin-IsTallied k (runs name) d h f = ground arith
begin-IsTallied k (binds name) d h f = ground arith
begin-IsTallied k (runs_source name y) d h f = ground arith

commit-IsTallied :
    (k n : String) (c : ℕ) (d : Directory)
    → lookup n d.entries ≡ none
    → IsTallied k d
    → IsTallied k
        (record d { entries = (n, c) ∷ d.entries; history = d.history ++ source_registered n ∷ [] })
commit-IsTallied k n c d missing v = ground (
  arith,
  eq_iff n k,
  occurs-none n d.entries missing,
  total-append (adds k) d.history (source_registered n ∷ []),
  total-append (drops k) d.history (source_registered n ∷ []),
)

pub move-IsTallied :
    (k : String) (ch : Choice) (d : Directory) (p : Pc) {d' : Directory} {q : Pc}
    → move ch d p ≡ some (d', q)
    → IsTallied k d
    → IsTallied k d'
unfolding move register_commit release open_with
move-IsTallied k (calls x) d (ready r) h v = begin-IsTallied k x d h v
move-IsTallied k _ d (ready r) h v = cc
move-IsTallied z ch d (in_open n cfg) h v = ground arith
move-IsTallied z ch d (opened n cfg x) h v = elim (Option-cases (lookup n d.entries)) [
  | inl missing ↦ ground (arith, commit-IsTallied z n x d missing v)
  | inr (e, found) ↦ ground arith
]
move-IsTallied z ch d (discarding x f) h v = ground arith
move-IsTallied z ch d (finishing r) h v = ground arith
move-IsTallied z ch d (reserving ls k) h v = ground arith
move-IsTallied z ch d (notifying [] (registered_as x)) h v = ground arith
move-IsTallied z ch d (notifying [] (drains x)) h v = ground arith
move-IsTallied z ch d (notifying [] (drains_all xs)) h v = ground arith
move-IsTallied z ch d (notifying (l ∷ ls) k) h v = ground arith
move-IsTallied z ch d (draining x) h v = ground arith
move-IsTallied z ch d (closing x) h v = ground arith
move-IsTallied z ch d (draining_all []) h v = ground arith
move-IsTallied z ch d (draining_all (x ∷ xs)) h v = ground arith
move-IsTallied z ch d (closing_all x xs) h v = ground arith
move-IsTallied z ch d awaiting_openings h v = ground arith
move-IsTallied z ch d (admitted n x) h v = ground arith
move-IsTallied z ch d (waiting n x) h v = ground arith
move-IsTallied z ch d (refused n x f) h v = ground arith
move-IsTallied z ch d (granted n x) h v = ground arith
move-IsTallied z ch d (running n x) h v = ground arith
move-IsTallied z ch d (ended n x o) h v = ground arith
move-IsTallied z ch d (releasing x o) h v = ground arith
move-IsTallied z ch d (leaving x r) h v = ground arith
