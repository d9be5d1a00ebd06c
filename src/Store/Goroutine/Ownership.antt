-- ===== src/Store/Goroutine/Ownership.antt =====
-- Where a client is: in the map, with one goroutine, or closed.
use dbstore.Common.{
  Option-cases, lookup, inl, inr, ℕ, ◌+◌, ◌≡◌, refl, none, some, [], ◌∷◌, arith, ltb, if◌then◌else◌,
  hit, count, ids, count-delete,
}
use dbstore.Store.Directory.{
  Directory, register_begin, register_commit, remove_entry_begin, remove_all_begin, acquire,
  acquire_source, release,
}
use dbstore.Store.Driver.{open_with}
use dbstore.Store.Protocol.{
  Choice, calls, Call, registers, removes, removes_all, runs, binds, runs_source, After,
  registered_as, drains, drains_all, Pc, ready, in_open, opened, discarding, finishing, reserving,
  notifying, draining, closing, draining_all, closing_all, awaiting_openings, admitted, waiting,
  refused, granted, running, ended, releasing, leaving,
}
use dbstore.Store.Goroutine.{begin, move}

abbrev after_holds : ℕ → After → ℕ
after_holds c (registered_as _) = 0
after_holds c (drains e) = hit c e
after_holds c (drains_all es) = count c es

-- How many times a goroutine has to close the client, or publish it.
abbrev pub holds : ℕ → Pc → ℕ
holds c (opened _ _ x) = hit c x
holds c (discarding x _) = hit c x
holds c (reserving _ k) = after_holds c k
holds c (notifying _ k) = after_holds c k
holds c (draining e) = hit c e
holds c (closing e) = hit c e
holds c (draining_all es) = count c es
holds c (closing_all e es) = hit c e + count c es
holds c _ = 0

abbrev pub owned : ℕ → Directory → ℕ
owned c d = count c (ids d.entries) + count c d.closed_clients

abbrev pub opened_by : ℕ → Directory → ℕ
opened_by c d = if ltb c d.next_client then 1 else 0

abbrev Conserves : ℕ → Directory → Pc → Directory → Pc → Type 0
Conserves c d p d' q =
    owned c d' + holds c q + opened_by c d ≡ owned c d + holds c p + opened_by c d'

begin-Conserves :
    (c : ℕ) (call : Call) (d : Directory) (p : Pc) {d' : Directory} {q : Pc}
    → holds c p ≡ 0
    → begin call d ≡ some (d', q)
    → Conserves c d p d' q
unfolding begin register_begin remove_entry_begin remove_all_begin acquire acquire_source
begin-Conserves c (registers name cfg) d p z h = ground arith
begin-Conserves c (removes name none) d p z h = elim (Option-cases (lookup name d.entries)) [
  | inl missing ↦ ground arith
  | inr (e, found) ↦ ground (arith, count-delete c name e d.entries found)
]
begin-Conserves c (removes name (some x)) d p z h = elim (Option-cases (lookup name d.entries)) [
  | inl missing ↦ ground arith
  | inr (e, found) ↦ ground (arith, count-delete c name e d.entries found)
]
begin-Conserves c removes_all d p z h = ground arith
begin-Conserves c (runs name) d p z h = ground arith
begin-Conserves c (binds name) d p z h = ground arith
begin-Conserves c (runs_source name x) d p z h = ground arith

pub move-Conserves :
    (c : ℕ) (ch : Choice) (d : Directory) (p : Pc) {d' : Directory} {q : Pc}
    → move ch d p ≡ some (d', q)
    → Conserves c d p d' q
unfolding move register_commit release open_with
move-Conserves c (calls x) d (ready r) h = begin-Conserves c x d (ready r) refl h
move-Conserves c _ d (ready r) h = cc
move-Conserves c ch d (in_open n cfg) h = ground arith
move-Conserves c ch d (opened n cfg x) h = ground arith
move-Conserves c ch d (discarding x e) h = ground arith
move-Conserves c ch d (finishing r) h = ground arith
move-Conserves c ch d (reserving ls k) h = ground arith
move-Conserves c ch d (notifying [] (registered_as x)) h = ground arith
move-Conserves c ch d (notifying [] (drains x)) h = ground arith
move-Conserves c ch d (notifying [] (drains_all xs)) h = ground arith
move-Conserves c ch d (notifying (l ∷ ls) k) h = ground arith
move-Conserves c ch d (draining e) h = ground arith
move-Conserves c ch d (closing e) h = ground arith
move-Conserves c ch d (draining_all []) h = ground arith
move-Conserves c ch d (draining_all (e ∷ es)) h = ground arith
move-Conserves c ch d (closing_all e es) h = ground arith
move-Conserves c ch d awaiting_openings h = ground arith
move-Conserves c ch d (admitted n e) h = ground arith
move-Conserves c ch d (waiting n e) h = ground arith
move-Conserves c ch d (refused n e f) h = ground arith
move-Conserves c ch d (granted n e) h = ground arith
move-Conserves c ch d (running n e) h = ground arith
move-Conserves c ch d (ended n e o) h = ground arith
move-Conserves c ch d (releasing e o) h = ground arith
move-Conserves c ch d (leaving e r) h = ground arith
