-- ===== src/Store/Protocol.antt =====
-- The calls of a `Directory`, an `Executor` and a `Source` of internal/store, what they return, and where
-- a goroutine stands in one.
use dbstore.Common.{ℕ, String, Option, some, List}
use dbstore.Store.Errors.{Error, Result, ok, err, panicked}
use dbstore.Store.Config.{SourceConfig}
use dbstore.Store.Directory.{Lifecycle}

-- What `fn` does in the end, and what a call returns.
pub data Outcome : Type 0 where
  returns : Option Error → Outcome
  panics : Outcome

pub data Reply : Type 0 where
  no_call : Reply
  replied : Option Error → Reply
  registered : ℕ → Reply
  bound : Option ℕ → Reply
  closed_all : Reply
  repanicked : Reply

pub data Call : Type 0 where
  registers : String → SourceConfig → Call
  removes : String → Option ℕ → Call
  removes_all : Call
  runs : String → Call
  binds : String → Call
  runs_source : String → Option ℕ → Call

pub data Choice : Type 0 where
  calls : Call → Choice
  go : Choice
  opens : Choice
  fails : Error → Choice
  at : ℕ → Choice
  cancels : Error → Choice
  ends : Outcome → Choice

-- What a call goes on with once its callbacks are through.
pub data After : Type 0 where
  registered_as : ℕ → After
  drains : ℕ → After
  drains_all : List ℕ → After

-- Where a goroutine stands, with the local variables that are live there.
pub data Pc : Type 0 where
  ready : Reply → Pc
  -- `register`: in the driver's `Open`; before the second hold of `mu`; before the `closeClient` of
  -- a client that was not published; before the deferred `openings.Done()`
  in_open : String → SourceConfig → Pc
  opened : String → SourceConfig → ℕ → Pc
  discarding : ℕ → Error → Pc
  finishing : Result ℕ → Pc
  -- holding `mu`, before `observerMu.Lock()`; holding `observerMu`, with callbacks to make
  reserving notifying : List Lifecycle → After → Pc
  -- before a `wg.Wait()`, before a `closeClient`, before `openings.Wait()`
  draining closing : ℕ → Pc
  draining_all : List ℕ → Pc
  closing_all : ℕ → List ℕ → Pc
  awaiting_openings : Pc
  -- `runEntry`: before the throttle's check of the context; in its select; before the callback of a
  -- refusal or a grant; in `fn`; before the callback after `fn`; before the throttle's `Release`;
  -- before the deferred `wg.Done()`
  admitted waiting : String → ℕ → Pc
  refused : String → ℕ → Error → Pc
  granted running : String → ℕ → Pc
  ended : String → ℕ → Outcome → Pc
  releasing : ℕ → Outcome → Pc
  leaving : ℕ → Outcome → Pc

abbrev pub after_notifying : After → Pc
after_notifying (registered_as c) = finishing (ok c)
after_notifying (drains e) = draining e
after_notifying (drains_all es) = draining_all es

abbrev pub reply_of_register : Result ℕ → Reply
reply_of_register (ok c) = registered c
reply_of_register (err e) = replied (some e)

abbrev pub reply_of : Outcome → Reply
reply_of (returns e) = replied e
reply_of panics = repanicked

-- The error that `ObserveComplete` reports.
abbrev pub reported : Outcome → Option Error
reported (returns e) = e
reported panics = some panicked
