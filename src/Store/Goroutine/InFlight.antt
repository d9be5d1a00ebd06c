-- ===== src/Store/Goroutine/InFlight.antt =====
-- How many operations an entry's wait group counts, which entries exist, and how many slots of a
-- throttle are taken.
use dbstore.Common.{
  ℕ, ◌+◌, ◌≡◌, Option, none, some, [], ◌∷◌, String, arith, hit, Option-cases, lookup, inl, inr,
}
use dbstore.Store.Throttle.{Throttle, unlimited, sem}
use dbstore.Store.Directory.{
  Entry, Directory, register_begin, register_commit, remove_entry_begin, remove_all_begin, acquire,
  acquire_source, release,
}
use dbstore.Store.Driver.{open_with}
use dbstore.Store.Protocol.{
  Reply, Choice, calls, Call, registers, removes, removes_all, runs, binds, runs_source,
  registered_as, drains, drains_all, Pc, ready, in_open, opened, discarding, finishing, reserving,
  notifying, draining, closing, draining_all, closing_all, awaiting_openings, admitted, waiting,
  refused, granted, running, ended, releasing, leaving,
}
use dbstore.Store.Goroutine.{begin, move}

-- Between `acquire` and the deferred `release` of `runEntry`.
abbrev pub in_flight : ℕ → Pc → ℕ
in_flight e (admitted _ x) = hit e x
in_flight e (waiting _ x) = hit e x
in_flight e (refused _ x _) = hit e x
in_flight e (granted _ x) = hit e x
in_flight e (running _ x) = hit e x
in_flight e (ended _ x _) = hit e x
in_flight e (releasing x _) = hit e x
in_flight e (leaving x _) = hit e x
in_flight e _ = 0

-- Between the throttle's `Acquire` and its `Release`.
abbrev pub has_slot : ℕ → Pc → ℕ
has_slot e (granted _ x) = hit e x
has_slot e (running _ x) = hit e x
has_slot e (ended _ x _) = hit e x
has_slot e (releasing x _) = hit e x
has_slot e _ = 0

abbrev pub counted : Option Entry → ℕ
counted none = 0
counted (some x) = x.wg

abbrev pub allocated : Option Entry → ℕ
allocated none = 0
allocated (some x) = 1

-- Tokens in the channel and slots taken make up the capacity; with no channel there is no limit.
abbrev pub FitsThrottle : Throttle → ℕ → Type 0
FitsThrottle unlimited n = Unit {0}
FitsThrottle (sem cap len) n = len + n ≡ cap

abbrev pub Fits : Option Entry → ℕ → Type 0
Fits none n = n ≡ 0
Fits (some x) n = FitsThrottle x.throttle n

-- What the names of the map and a client that is still to be published say of the heap.
abbrev pub Stands : Directory → Pc → Type 0
Stands d (opened _ _ c) = d.heap c ≡ none
Stands d (ready _) =
    (name : String) (e : ℕ) → lookup name d.entries ≡ some e → allocated (d.heap e) ≡ 1
Stands d _ = Unit {0}

begin-counted :
    (e : ℕ) (call : Call) (d : Directory) (r : Reply) {d' : Directory} {q : Pc}
    → Stands d (ready r)
    → begin call d ≡ some (d', q)
    → (n : ℕ) → counted (d.heap e) ≡ n
    → counted (d'.heap e) ≡ n + in_flight e q
unfolding begin register_begin remove_entry_begin remove_all_begin acquire acquire_source
begin-counted e (registers name cfg) d r s h n c = ground arith
begin-counted e (removes name x) d r s h n c = ground arith
begin-counted e removes_all d r s h n c = ground arith
begin-counted e (runs name) d r s h n c = elim (Option-cases (lookup name d.entries)) [
  | inl missing ↦ ground arith
  | inr (x, found) ↦ ground (arith, s name x found)
]
begin-counted e (binds name) d r s h n c = ground arith
begin-counted e (runs_source name y) d r s h n c = elim (Option-cases (lookup name d.entries)) [
  | inl missing ↦ ground arith
  | inr (x, found) ↦ ground (arith, s name x found)
]

pub move-counted :
    (e : ℕ) (ch : Choice) (d : Directory) (p : Pc) {d' : Directory} {q : Pc}
    → Stands d p
    → move ch d p ≡ some (d', q)
    → (n : ℕ) → counted (d.heap e) ≡ n + in_flight e p
    → counted (d'.heap e) ≡ n + in_flight e q
unfolding move register_commit release open_with
move-counted e (calls x) d (ready r) s h n c = begin-counted e x d r s h n (ground arith)
move-counted e _ d (ready r) s h n c = cc
move-counted e ch d (in_open n cfg) s h m c = ground arith
move-counted e ch d (opened n cfg x) s h m c = ground arith
move-counted e ch d (discarding x f) s h m c = ground arith
move-counted e ch d (finishing r) s h m c = ground arith
move-counted e ch d (reserving ls k) s h m c = ground arith
move-counted e ch d (notifying [] (registered_as x)) s h m c = ground arith
move-counted e ch d (notifying [] (drains x)) s h m c = ground arith
move-counted e ch d (notifying [] (drains_all xs)) s h m c = ground arith
move-counted e ch d (notifying (l ∷ ls) k) s h m c = ground arith
move-counted e ch d (draining x) s h m c = ground arith
move-counted e ch d (closing x) s h m c = ground arith
move-counted e ch d (draining_all []) s h m c = ground arith
move-counted e ch d (draining_all (x ∷ xs)) s h m c = ground arith
move-counted e ch d (closing_all x xs) s h m c = ground arith
move-counted e ch d awaiting_openings s h m c = ground arith
move-counted e ch d (admitted n x) s h m c = ground arith
move-counted e ch d (waiting n x) s h m c = ground arith
move-counted e ch d (refused n x f) s h m c = ground arith
move-counted e ch d (granted n x) s h m c = ground arith
move-counted e ch d (running n x) s h m c = ground arith
move-counted e ch d (ended n x o) s h m c = ground arith
move-counted e ch d (releasing x o) s h m c = ground arith
move-counted e ch d (leaving x r) s h m c = ground arith
