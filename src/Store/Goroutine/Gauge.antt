-- ===== src/Store/Goroutine/Gauge.antt =====
-- The callbacks of a run come in pairs: what an in-flight gauge counts.
use dbstore.Common.{
  ℕ, ◌+◌, ◌≡◌, false, none, some, [], ◌∷◌, String, arith, if◌then◌else◌, str_eq, ◌⊎◌, total,
  total-append,
}
use dbstore.Store.Directory.{
  Directory, register_begin, register_commit, remove_entry_begin, remove_all_begin, acquire,
  acquire_source, release,
}
use dbstore.Store.Driver.{open_with}
use dbstore.Store.Protocol.{
  Choice, calls, Call, registers, removes, removes_all, runs, binds, runs_source, registered_as,
  drains, drains_all, Pc, ready, in_open, opened, discarding, finishing, reserving, notifying,
  draining, closing, draining_all, closing_all, awaiting_openings, admitted, waiting, refused,
  granted, running, ended, releasing, leaving, reported,
}
use dbstore.Store.Goroutine.{begin, move}
use dbstore.Store.Directory.{RunEvent, acquired, completed}

abbrev same : String → String → ℕ
same j k = if str_eq j k then 1 else 0

-- Grants of a slot of the source, and completions.
abbrev pub grants : String → RunEvent → ℕ
grants k (acquired j none) = same j k
grants k (acquired j (some _)) = 0
grants k (completed j _) = 0

abbrev pub completions : String → RunEvent → ℕ
completions k (acquired j _) = 0
completions k (completed j _) = same j k

-- Between the two callbacks of a run of the source.
abbrev pub observed : String → Pc → ℕ
observed k (running j _) = same j k
observed k (ended j _ _) = same j k
observed k _ = 0

abbrev pub IsGauged : String → Directory → ℕ → Type 0
IsGauged k d n =
    (d.observer ≡ false) ⊎ (total (grants k) d.run_events ≡ total (completions k) d.run_events + n)

begin-IsGauged :
    (k : String) (call : Call) (d : Directory) {d' : Directory} {q : Pc}
    → begin call d ≡ some (d', q)
    → (n : ℕ) → IsGauged k d n
    → IsGauged k d' (n + observed k q)
unfolding begin register_begin remove_entry_begin remove_all_begin acquire acquire_source
begin-IsGauged k (registers name cfg) d h n f = ground arith
begin-IsGauged k (removes name x) d h n f = ground arith
begin-IsGauged k removes_all d h n f = ground arith
begin-IsGauged k (runs name) d h n f = ground arith
begin-IsGauged k (binds name) d h n f = ground arith
begin-IsGauged k (runs_source name y) d h n f = ground arith

pub move-IsGauged :
    (k : String) (ch : Choice) (d : Directory) (p : Pc) {d' : Directory} {q : Pc}
    → move ch d p ≡ some (d', q)
    → (n : ℕ) → IsGauged k d (n + observed k p)
    → IsGauged k d' (n + observed k q)
unfolding move register_commit release open_with
move-IsGauged k (calls x) d (ready r) h m v = begin-IsGauged k x d h m (ground arith)
move-IsGauged k _ d (ready r) h m v = cc
move-IsGauged z ch d (in_open n cfg) h m v = ground arith
move-IsGauged z ch d (opened n cfg x) h m v = ground arith
move-IsGauged z ch d (discarding x f) h m v = ground arith
move-IsGauged z ch d (finishing r) h m v = ground arith
move-IsGauged z ch d (reserving ls k) h m v = ground arith
move-IsGauged z ch d (notifying [] (registered_as x)) h m v = ground arith
move-IsGauged z ch d (notifying [] (drains x)) h m v = ground arith
move-IsGauged z ch d (notifying [] (drains_all xs)) h m v = ground arith
move-IsGauged z ch d (notifying (l ∷ ls) k) h m v = ground arith
move-IsGauged z ch d (draining x) h m v = ground arith
move-IsGauged z ch d (closing x) h m v = ground arith
move-IsGauged z ch d (draining_all []) h m v = ground arith
move-IsGauged z ch d (draining_all (x ∷ xs)) h m v = ground arith
move-IsGauged z ch d (closing_all x xs) h m v = ground arith
move-IsGauged z ch d awaiting_openings h m v = ground arith
move-IsGauged z ch d (admitted n x) h m v = ground arith
move-IsGauged z ch d (waiting n x) h m v = ground arith
move-IsGauged z ch d (refused n x f) h m v = ground (
  arith,
  total-append (grants z) d.run_events (acquired n (some f) ∷ []),
  total-append (completions z) d.run_events (acquired n (some f) ∷ []),
)
move-IsGauged z ch d (granted n x) h m v = ground (
  arith,
  total-append (grants z) d.run_events (acquired n none ∷ []),
  total-append (completions z) d.run_events (acquired n none ∷ []),
)
move-IsGauged z ch d (running n x) h m v = ground arith
move-IsGauged z ch d (ended n x o) h m v = ground (
  arith,
  total-append (grants z) d.run_events (completed n (reported o) ∷ []),
  total-append (completions z) d.run_events (completed n (reported o) ∷ []),
)
move-IsGauged z ch d (releasing x o) h m v = ground arith
move-IsGauged z ch d (leaving x r) h m v = ground arith
