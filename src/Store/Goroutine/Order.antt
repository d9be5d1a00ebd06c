-- ===== src/Store/Goroutine/Order.antt =====
-- Lifecycle callbacks are made in the order of the changes that they report.
use dbstore.Common.{
  ℕ, ◌≡◌, Bool, true, false, some, List, [], ◌∷◌, ◌++◌, arith, append_assoc, append-nil, map, ◌⊎◌,
}
use dbstore.Store.Directory.{
  Directory, Lifecycle, source_registered, source_removed, names, register_begin, register_commit,
  remove_entry_begin, remove_all_begin, acquire, acquire_source, release,
}
use dbstore.Store.Driver.{open_with}
use dbstore.Store.Protocol.{
  Choice, calls, Call, registers, removes, removes_all, runs, binds, runs_source, registered_as,
  drains, drains_all, Pc, ready, in_open, opened, discarding, finishing, reserving, notifying,
  draining, closing, draining_all, closing_all, awaiting_openings, admitted, waiting, refused,
  granted, running, ended, releasing, leaving,
}
use dbstore.Store.Goroutine.{begin, move}
use dbstore.Store.Goroutine.Locks.{holds_mu, holds_observer_mu}

-- The callbacks that a goroutine has reserved by `observerMu`, and those that it will reserve next.
abbrev pub reserved : Pc → List Lifecycle
reserved (notifying ls _) = ls
reserved _ = []

abbrev pub unreserved : Pc → List Lifecycle
unreserved (reserving ls _) = ls
unreserved _ = []

-- With an observer, what has changed is what was reported, then what is reserved, then the change
-- of the goroutine that waits for `observerMu`.
abbrev pub IsOrdered : Directory → List Lifecycle → List Lifecycle → Type 0
IsOrdered d rs us = (d.observer ≡ false) ⊎ (d.history ≡ d.delivered ++ (rs ++ us))

-- What the other goroutines hold: nothing, or this one does not hold the lock.
abbrev Others : Bool → ℕ → List Lifecycle → Type 0
Others lock held ls = (ls ≡ []) ⊎ ((lock ≡ true) × (held ≡ 0))

begin-IsOrdered :
    (call : Call) (d : Directory) {d' : Directory} {q : Pc}
    → begin call d ≡ some (d', q)
    → (rs us : List Lifecycle) → Others d.mu 0 us
    → IsOrdered d rs us
    → IsOrdered d' (rs ++ reserved q) (us ++ unreserved q)
unfolding begin register_begin remove_entry_begin remove_all_begin acquire acquire_source
begin-IsOrdered (registers name cfg) d h rs us o v = ground (arith, append-nil rs, append-nil us)
begin-IsOrdered (removes name x) d h rs us o v =
    ground
      (arith, append-nil rs, append-nil us, append_assoc d.delivered rs (source_removed name ∷ []))
begin-IsOrdered removes_all d h rs us o v = ground (
  arith,
  append-nil rs,
  append-nil us,
  append_assoc d.delivered rs (map source_removed (names d.entries)),
)
begin-IsOrdered (runs name) d h rs us o v = ground (arith, append-nil rs, append-nil us)
begin-IsOrdered (binds name) d h rs us o v = ground (arith, append-nil rs, append-nil us)
begin-IsOrdered (runs_source name y) d h rs us o v = ground (arith, append-nil rs, append-nil us)

pub move-IsOrdered :
    (ch : Choice) (d : Directory) (p : Pc) {d' : Directory} {q : Pc}
    → move ch d p ≡ some (d', q)
    → (rs us : List Lifecycle) → Others d.observer_mu (holds_observer_mu p) rs
    → Others d.mu (holds_mu p) us
    → IsOrdered d (rs ++ reserved p) (us ++ unreserved p)
    → IsOrdered d' (rs ++ reserved q) (us ++ unreserved q)
unfolding move register_commit release open_with
move-IsOrdered (calls x) d (ready r) h rs us a b v =
    begin-IsOrdered x d h rs us b (ground (arith, append-nil rs, append-nil us))
move-IsOrdered _ d (ready r) h rs us a b v = cc
move-IsOrdered ch d (in_open n cfg) h rs us a b v = ground (arith, append-nil rs, append-nil us)
move-IsOrdered ch d (opened n cfg x) h rs us a b v =
    ground
      (arith, append-nil rs, append-nil us, append_assoc d.delivered rs (source_registered n ∷ []))
move-IsOrdered ch d (discarding x f) h rs us a b v = ground (arith, append-nil rs, append-nil us)
move-IsOrdered ch d (finishing r) h rs us a b v = ground (arith, append-nil rs, append-nil us)
move-IsOrdered ch d (reserving ls k) h rs us a b v =
    ground (arith, append-nil rs, append-nil us, append-nil ls)
move-IsOrdered ch d (notifying [] (registered_as x)) h rs us a b v =
    ground (arith, append-nil rs, append-nil us)
move-IsOrdered ch d (notifying [] (drains x)) h rs us a b v =
    ground (arith, append-nil rs, append-nil us)
move-IsOrdered ch d (notifying [] (drains_all xs)) h rs us a b v =
    ground (arith, append-nil rs, append-nil us)
move-IsOrdered ch d (notifying (l ∷ ls) k) h rs us a b v =
    ground (arith, append-nil rs, append-nil us, append_assoc d.delivered (l ∷ []) (ls ++ us))
move-IsOrdered ch d (draining x) h rs us a b v = ground (arith, append-nil rs, append-nil us)
move-IsOrdered ch d (closing x) h rs us a b v = ground (arith, append-nil rs, append-nil us)
move-IsOrdered ch d (draining_all []) h rs us a b v = ground (arith, append-nil rs, append-nil us)
move-IsOrdered ch d (draining_all (x ∷ xs)) h rs us a b v =
    ground (arith, append-nil rs, append-nil us)
move-IsOrdered ch d (closing_all x xs) h rs us a b v = ground (arith, append-nil rs, append-nil us)
move-IsOrdered ch d awaiting_openings h rs us a b v = ground (arith, append-nil rs, append-nil us)
move-IsOrdered ch d (admitted n x) h rs us a b v = ground (arith, append-nil rs, append-nil us)
move-IsOrdered ch d (waiting n x) h rs us a b v = ground (arith, append-nil rs, append-nil us)
move-IsOrdered ch d (refused n x f) h rs us a b v = ground (arith, append-nil rs, append-nil us)
move-IsOrdered ch d (granted n x) h rs us a b v = ground (arith, append-nil rs, append-nil us)
move-IsOrdered ch d (running n x) h rs us a b v = ground (arith, append-nil rs, append-nil us)
move-IsOrdered ch d (ended n x o) h rs us a b v = ground (arith, append-nil rs, append-nil us)
move-IsOrdered ch d (releasing x o) h rs us a b v = ground (arith, append-nil rs, append-nil us)
move-IsOrdered ch d (leaving x r) h rs us a b v = ground (arith, append-nil rs, append-nil us)
