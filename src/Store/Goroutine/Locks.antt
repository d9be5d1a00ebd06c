-- ===== src/Store/Goroutine/Locks.antt =====
-- Who holds `mu` and `observerMu`, and how many `register` calls are counted in `openings`.
use dbstore.Common.{ℕ, ◌+◌, ◌≡◌, Bool, true, false, some, [], ◌∷◌, arith}
use dbstore.Store.Directory.{
  Directory, register_begin, register_commit, remove_entry_begin, remove_all_begin, acquire,
  acquire_source, release,
}
use dbstore.Store.Driver.{open_with}
use dbstore.Store.Protocol.{
  Choice, calls, Call, registers, removes, removes_all, runs, binds, runs_source, After,
  registered_as, drains, drains_all, Pc, ready, in_open, opened, discarding, finishing, reserving,
  notifying, draining, closing, draining_all, closing_all, awaiting_openings, admitted, waiting,
  refused, granted, running, ended, releasing, leaving,
}
use dbstore.Store.Goroutine.{begin, move}

abbrev pub holds_mu : Pc → ℕ
holds_mu (reserving _ _) = 1
holds_mu _ = 0

abbrev pub holds_observer_mu : Pc → ℕ
holds_observer_mu (notifying _ _) = 1
holds_observer_mu _ = 0

abbrev after_opens : After → ℕ
after_opens (registered_as _) = 1
after_opens _ = 0

-- Between `openings.Add(1)` and `openings.Done()`.
abbrev pub in_opening : Pc → ℕ
in_opening (in_open _ _) = 1
in_opening (opened _ _ _) = 1
in_opening (discarding _ _) = 1
in_opening (finishing _) = 1
in_opening (reserving _ k) = after_opens k
in_opening (notifying _ k) = after_opens k
in_opening _ = 0

abbrev pub bit : Bool → ℕ
bit true = 1
bit false = 0

abbrev pub IsLocked : Directory → ℕ → ℕ → ℕ → Type 0
IsLocked d a b c = (bit d.mu ≡ a) × (bit d.observer_mu ≡ b) × (d.openings ≡ c)

begin-IsLocked :
    (call : Call) (d : Directory) {d' : Directory} {q : Pc}
    → begin call d ≡ some (d', q)
    → (a b c : ℕ) → IsLocked d a b c
    → IsLocked d' (a + holds_mu q) (b + holds_observer_mu q) (c + in_opening q)
unfolding begin register_begin remove_entry_begin remove_all_begin acquire acquire_source
begin-IsLocked (registers name cfg) d h a b c v = ground arith
begin-IsLocked (removes name x) d h a b c v = ground arith
begin-IsLocked removes_all d h a b c v = ground arith
begin-IsLocked (runs name) d h a b c v = ground arith
begin-IsLocked (binds name) d h a b c v = ground arith
begin-IsLocked (runs_source name x) d h a b c v = ground arith

pub move-IsLocked :
    (ch : Choice) (d : Directory) (p : Pc) {d' : Directory} {q : Pc}
    → move ch d p ≡ some (d', q)
    → (a b c : ℕ) → IsLocked d (a + holds_mu p) (b + holds_observer_mu p) (c + in_opening p)
    → IsLocked d' (a + holds_mu q) (b + holds_observer_mu q) (c + in_opening q)
unfolding move register_commit release open_with
move-IsLocked (calls x) d (ready r) h a b c v = begin-IsLocked x d h a b c (ground arith)
move-IsLocked _ d (ready r) h a b c v = cc
move-IsLocked ch d (in_open n cfg) h a b c v = ground arith
move-IsLocked ch d (opened n cfg x) h a b c v = ground arith
move-IsLocked ch d (discarding x f) h a b c v = ground arith
move-IsLocked ch d (finishing r) h a b c v = ground arith
move-IsLocked ch d (reserving ls k) h a b c v = ground arith
move-IsLocked ch d (notifying [] (registered_as x)) h a b c v = ground arith
move-IsLocked ch d (notifying [] (drains x)) h a b c v = ground arith
move-IsLocked ch d (notifying [] (drains_all xs)) h a b c v = ground arith
move-IsLocked ch d (notifying (l ∷ ls) k) h a b c v = ground arith
move-IsLocked ch d (draining x) h a b c v = ground arith
move-IsLocked ch d (closing x) h a b c v = ground arith
move-IsLocked ch d (draining_all []) h a b c v = ground arith
move-IsLocked ch d (draining_all (x ∷ xs)) h a b c v = ground arith
move-IsLocked ch d (closing_all x xs) h a b c v = ground arith
move-IsLocked ch d awaiting_openings h a b c v = ground arith
move-IsLocked ch d (admitted n x) h a b c v = ground arith
move-IsLocked ch d (waiting n x) h a b c v = ground arith
move-IsLocked ch d (refused n x f) h a b c v = ground arith
move-IsLocked ch d (granted n x) h a b c v = ground arith
move-IsLocked ch d (running n x) h a b c v = ground arith
move-IsLocked ch d (ended n x o) h a b c v = ground arith
move-IsLocked ch d (releasing x o) h a b c v = ground arith
move-IsLocked ch d (leaving x r) h a b c v = ground arith
