-- ===== src/Adapters/Sqlx.antt =====
-- adapters/sqlx/handle.go and source.go: not-found errors, and transactions. What a database does is a
-- parameter; its state `S` is what is committed.
pub mod Atomic
pub mod Handle
pub mod Driver
use dbstore.Common.{Bool, true, false, Option, none, some, if◌then◌else◌}
use dbstore.Store.Errors.{Error, not_found}
use dbstore.Store.Protocol.{Outcome, returns, panics}

-- The error of `Get`, given which errors are `sql.ErrNoRows`.
unfoldable pub get_error : (Error → Bool) → Option Error → Option Error
get_error no_rows none = none
get_error no_rows (some e) = if no_rows e then some not_found else some e

-- `BeginTxx` may fail; `Commit` of a transaction makes its work the state, or fails.
pub record TxDatabase (S : Type 0) : Type 0 where
  pub begin_err : Option Error
  pub commit : S → S → S × Option Error

-- An `sql.Tx`: what the transaction has made of the state, and whether it has ended. `Rollback` of one
-- that has ended is `sql.ErrTxDone`, which is dropped.
pub data Tx (S : Type 0) : Type 0 where
  active : S → Tx S
  committed rolled_back : Tx S

unfoldable pub rollback : {S : Type 0} → Tx S → Tx S
rollback (active work) = rolled_back
rollback committed = committed
rollback rolled_back = rolled_back

-- What a run of a transaction leaves: the state, the transaction if it began, and the outcome.
pub record TxRun (S : Type 0) : Type 0 where
  pub state : S
  pub tx : Option (Tx S)
  pub outcome : Outcome

module _ {S : Type 0} where
  -- `Commit` ends the transaction, whatever it returns.
  unfoldable pub after_commit : S × Option Error → TxRun S
  after_commit (st, e) = record { state = st; tx = some committed; outcome = returns e }

  -- The deferred `Rollback`, which also runs on a panic of `fn`.
  unfoldable pub deferred : TxRun S → TxRun S
  unfolding rollback
  deferred r = elim r.tx [ none ↦ r | some t ↦ record r { tx = some (rollback t) } ]

  -- What follows `fn`, with the work and the outcome of it.
  unfoldable pub after_fn : TxDatabase S → S → S × Outcome → TxRun S
  unfolding after_commit
  after_fn db st (work, returns none) = after_commit (db.commit st work)
  after_fn db st (work, o) = record { state = st; tx = some (active work); outcome = o }

  -- What follows `BeginTxx`, with its error.
  unfoldable pub after_begin : TxDatabase S → (S → S × Outcome) → S → Option Error → TxRun S
  unfolding after_fn deferred
  after_begin db fn st (some e) = record { state = st; tx = none; outcome = returns (some e) }
  after_begin db fn st none = deferred (after_fn db st (fn st))

  -- `runTx`, and `WithTx` of a handle.
  unfoldable pub run_tx : TxDatabase S → (S → S × Outcome) → S → TxRun S
  unfolding after_begin
  run_tx db fn st = after_begin db fn st db.begin_err
