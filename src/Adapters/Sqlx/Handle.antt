-- ===== src/Adapters/Sqlx/Handle.antt =====
-- adapters/sqlx/handle.go: the methods of `Handle` and of `TxHandle`. What the database does is an argument, on
-- a state of any type.
use dbstore.Common.{
  Bool, String, Option, none, some, List, ◌≡◌, ◌⊎◌, inl, inr, refl, if◌then◌else◌, arith,
}
use dbstore.Store.Errors.{Error, not_found}
use dbstore.Store.Protocol.{Outcome}
use dbstore.Adapters.Sqlx.{get_error, TxDatabase, TxRun, run_tx}

-- Rows, or an error.
abbrev pub Answer : Type 0 → Type 0
Answer R = R ⊎ Error

-- An `sqlx.DB` or an `sqlx.Tx`, with parameters of type `A` and results of type `R`.
pub record Queries (S A R : Type 0) : Type 0 where
  pub rebind : String → String
  pub no_rows : Error → Bool
  pub get_context : String → List A → S → S × Answer R
  pub select_context : String → List A → S → S × Answer R
  pub exec_context : String → List A → S → S × Answer R

-- `errors.Is(err, sql.ErrNoRows)` on the way out.
abbrev translated : {R : Type 0} → (Error → Bool) → Answer R → Answer R
translated no_rows (inl rows) = inl rows
translated no_rows (inr e) = if no_rows e then inr not_found else inr e

abbrev error_of : {R : Type 0} → Answer R → Option Error
error_of (inl rows) = none
error_of (inr e) = some e

module _ {S A R : Type 0} (db : Queries S A R) (query : String) (args : List A) where
  -- `Handle.Get` and `TxHandle.Get`
  unfoldable pub get : S → S × Answer R
  get st =
      let (after, answer) = db.get_context (db.rebind query) args st in
      (after, translated db.no_rows answer)

  unfoldable pub select : S → S × Answer R
  select st = db.select_context (db.rebind query) args st

  -- The result of `ExecContext` is dropped.
  unfoldable pub exec : S → S × Option Error
  exec st =
      let (after, answer) = db.exec_context (db.rebind query) args st in (after, error_of answer)

module _ {S A R : Type 0} where
  -- `WithTx`: `fn` gets a handle of the transaction.
  unfoldable pub with_tx :
      TxDatabase S → Queries S A R → (Queries S A R → S → S × Outcome) → S → TxRun S
  with_tx db tx fn = run_tx db (fn tx)

-- The error of the answer is that of `Get`.
error-translated :
    {R : Type 0} (no_rows : Error → Bool) (answer : Answer R)
    → error_of (translated no_rows answer) ≡ get_error no_rows (error_of answer)
unfolding get_error
error-translated no_rows (inl rows) = refl
error-translated no_rows (inr e) = ground arith
