-- ===== src/Store/Goroutine.antt =====
-- internal/store/directory.go, executor.go and source.go as they run: goroutines that call the
-- methods of one `Directory`, interleaved in any order. A step of a goroutine is one hold of `mu`,
-- one operation on a lock, a channel or a wait group, one call of the observer, of a driver, of
-- `Close`, or of `fn`. The driver, the context, `fn` and the clock are choices of the environment.
pub mod System
pub mod Ownership
mod Tests
pub mod Stale
pub mod Progress
pub mod Safety
pub mod Limits
pub mod Gauge
pub mod Gone
pub mod Invariant
pub mod Keys
pub mod Order
pub mod Quiet
pub mod Shutdown
pub mod Slots
pub mod Size
pub mod Fresh
pub mod InFlight
pub mod Locks
use dbstore.Common.{
  ℕ, zero, suc, ltb, true, false, String, str_eq, Option, none, some, List, [], ◌∷◌, ◌++◌, map, ids,
  if◌then◌else◌,
}
use dbstore.Store.Protocol.{
  Outcome, returns, panics, Reply, no_call, replied, registered, bound, closed_all, repanicked,
  Call, registers, removes, removes_all, runs, binds, runs_source, Choice, calls, go, opens, fails,
  at, cancels, ends, After, registered_as, drains, drains_all, Pc, ready, in_open, opened,
  discarding, finishing, reserving, notifying, draining, closing, draining_all, closing_all,
  awaiting_openings, admitted, waiting, refused, granted, running, ended, releasing, leaving,
  after_notifying, reply_of_register, reply_of, reported,
}
use dbstore.Store.Errors.{Error, Result, ok, err, name_required, opening, panicked}
use dbstore.Store.Config.{SourceConfig}
use dbstore.Store.Throttle
use dbstore.Store.Throttle.{Throttle, acquire_check, receive}
use dbstore.Store.Driver.{Builder, Opened, open_with}
use dbstore.Store.Directory.{
  Entry, Directory, Lifecycle, source_registered, source_removed, RunEvent, acquired, completed,
  register_begin, register_commit, write, remove_entry_begin, names, remove_all_begin, acquire,
  acquire_source, release, source_entry, note_opened, close_client, deliver,
}

-- The first step of a call. All but `register` of an empty name begins with `mu.Lock()`.
begin : Call → Directory → Option (Directory × Pc)
begin (registers name cfg) d =
    if str_eq name ""
    then some (d, ready (replied (some name_required)))
    else if d.mu
    then none
    else elim (register_begin name d) [
      | err e ↦ some (d, ready (replied (some e)))
      | ok d' ↦ some (d', in_open name cfg)
    ]
begin (removes name expected) d = if d.mu then none else elim (remove_entry_begin name expected d) [
  | err e ↦ some (d, ready (replied (some e)))
  | ok none ↦ some (d, ready (replied none))
  | ok (some (e, d')) ↦
      some (record d' { mu = true }, reserving (source_removed name ∷ []) (drains e))
]
begin removes_all d =
    if d.mu
    then none
    else let (es, d') = remove_all_begin d in
      some
        (record d' { mu = true }, reserving (map source_removed (names es)) (drains_all (ids es)))
begin (runs name) d = if d.mu then none else elim (acquire name d) [
  | err e ↦ some (d, ready (replied (some e)))
  | ok (e, d') ↦ some (d', admitted name e)
]
begin (binds name) d = if d.mu then none else some (d, ready (bound (source_entry name d)))
begin (runs_source name expected) d = if d.mu then none else elim (acquire_source name expected d) [
  | err e ↦ some (d, ready (replied (some e)))
  | ok (e, d') ↦ some (d', admitted name e)
]

-- The driver's `Open` returns: a client, which takes the next number, or an error.
opened_ok : String → SourceConfig → Opened → Directory → Directory × Pc
unfolding note_opened
opened_ok name cfg o d = (note_opened o d, opened name cfg o.client)

driver_returns : String → SourceConfig → (Builder → Result ℕ) → Directory → Directory × Pc
unfolding opened_ok
driver_returns name cfg result d = elim (open_with cfg result d.registry) [
  | err e ↦ (d, finishing (err (opening name e)))
  | ok o ↦ opened_ok name cfg o d
]

-- The second hold of `mu` in `register`.
commit : String → SourceConfig → ℕ → ℕ → Directory → Option (Directory × Pc)
commit name cfg c now d = if d.mu then none else elim (register_commit name cfg c now d) [
  | err e ↦ some (d, discarding c e)
  | ok d' ↦
      some (record d' { mu = true }, reserving (source_registered name ∷ []) (registered_as c))
]

wg_of : Option Entry → ℕ
wg_of none = 0
wg_of (some x) = x.wg

observe_run : RunEvent → Directory → Directory
observe_run r d = if d.observer then record d { run_events = d.run_events ++ r ∷ [] } else d

-- The throttle's check of the context, on an entry that is there.
check_context : Option Error → String → ℕ → Entry → Pc
check_context ctx name e x = elim (acquire_check ctx x.throttle) [
  | err f ↦ refused name e f
  | ok true ↦ granted name e
  | ok false ↦ waiting name e
]

-- A change of the throttle of an entry; `none` blocks, and stands for a nil entry too.
on_throttle : (Throttle → Option Throttle) → ℕ → Directory → Option Directory
on_throttle f e d = elim (d.heap e) [
  | none ↦ none
  | some x ↦ elim (f x.throttle) [
    | none ↦ none
    | some t ↦ some (record d { heap = write d.heap e (some (record x { throttle = t })) })
  ]
]

-- `none` is a nil dereference.
goto_entry : (Entry → Pc) → Directory → Option Entry → Option (Directory × Pc)
goto_entry f d none = none
goto_entry f d (some x) = some (d, f x)

goto : Pc → Option Directory → Option (Directory × Pc)
goto p none = none
goto p (some d) = some (d, p)

-- One step of one goroutine; `none` where it waits, or the choice does not apply.
pub move : Choice → Directory → Pc → Option (Directory × Pc)
unfolding begin driver_returns commit wg_of close_client deliver observe_run check_context
    on_throttle goto goto_entry
move (calls c) d (ready _) = begin c d
move opens d (in_open name cfg) = some (driver_returns name cfg (λ _. ok d.next_client) d)
move (fails e) d (in_open name cfg) = some (driver_returns name cfg (λ _. err e) d)
move (at now) d (opened name cfg c) = commit name cfg c now d
move go d (discarding c e) = some (close_client c d, finishing (err e))
move (fails _) d (discarding c e) = some (close_client c d, finishing (err e))
move go d (finishing r) = elim d.openings [
  | zero ↦ none
  | suc n ↦ some (record d { openings = n }, ready (reply_of_register r))
]
move go d (reserving ls k) =
    if d.observer_mu
    then none
    else some (record d { observer_mu = true; mu = false }, notifying ls k)
move go d (notifying [] k) = some (record d { observer_mu = false }, after_notifying k)
move go d (notifying (l ∷ ls) k) = some (deliver l d, notifying ls k)
move go d (draining e) = if ltb 0 (wg_of (d.heap e)) then none else some (d, closing e)
move go d (closing e) = some (close_client e d, ready (replied none))
move (fails f) d (closing e) = some (close_client e d, ready (replied (some f)))
move go d (draining_all []) = some (d, awaiting_openings)
move go d (draining_all (e ∷ es)) =
    if ltb 0 (wg_of (d.heap e)) then none else some (d, closing_all e es)
move go d (closing_all e es) = some (close_client e d, draining_all es)
move (fails _) d (closing_all e es) = some (close_client e d, draining_all es)
move go d awaiting_openings = if ltb 0 d.openings then none else some (d, ready closed_all)
move go d (admitted name e) = goto_entry (check_context none name e) d (d.heap e)
move (cancels f) d (admitted name e) = goto_entry (check_context (some f) name e) d (d.heap e)
move go d (waiting name e) = goto (granted name e) (on_throttle receive e d)
move (cancels f) d (waiting name e) = some (d, refused name e f)
move go d (refused name e f) =
    some (observe_run (acquired name (some f)) d, leaving e (returns (some f)))
move go d (granted name e) = some (observe_run (acquired name none) d, running name e)
move (ends o) d (running name e) = some (d, ended name e o)
move go d (ended name e o) = some (observe_run (completed name (reported o)) d, releasing e o)
move go d (releasing e o) = goto (leaving e o) (on_throttle Throttle.release e d)
move go d (leaving e o) = goto (ready (reply_of o)) (release e d)
move _ _ _ = none
