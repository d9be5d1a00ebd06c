-- ===== src/Adapters/Sqlx/Atomic.antt =====
-- A transaction of the sqlx adapter is all or nothing.
use dbstore.Common.{Option, none, some, ◌≡◌, ◌≢◌, refl, ap, ◌⊎◌, inl, inr, arith}
use dbstore.Store.Errors.{Error}
use dbstore.Store.Protocol.{Outcome, returns, panics}
use dbstore.Adapters.Sqlx.{
  TxDatabase, Tx, active, rollback, TxRun, run_tx, after_commit, after_fn, after_begin, deferred,
}

-- What is used of `Commit`: it makes the work the state, or fails and changes nothing.
abbrev pub CommitsWhole : {S : Type 0} → TxDatabase S → Type 0
CommitsWhole {S} db =
    (st work : S)
    → (db.commit st work ≡ (work, none)) ⊎ ((e : Error) × (db.commit st work ≡ (st, some e)))

-- A transaction that ran is not left open.
abbrev pub IsEnded : {S : Type 0} → Option (Tx S) → Type 0
IsEnded none = Unit {0}
IsEnded (some (active work)) = ⊥
IsEnded (some t) = Unit {0}

-- Either nil is returned, with the work of `fn` as the state, or the state is as it was.
abbrev pub IsAtomic : {S : Type 0} → S → S × Outcome → TxRun S → Type 0
IsAtomic st ran r =
    IsEnded r.tx
    × (((r.outcome ≡ returns none) × (r.state ≡ ran.0) × (ran.1 ≡ returns none))
        ⊎ ((r.outcome ≢ returns none) × (r.state ≡ st)))

module _ {S : Type 0} (st : S) where
  after_commit-IsAtomic :
      (work : S) (c : S × Option Error)
      → (c ≡ (work, none)) ⊎ ((e : Error) × (c ≡ (st, some e)))
      → IsAtomic st (work, returns none) (deferred (after_commit c))
  unfolding after_commit deferred rollback
  after_commit-IsAtomic work (st', none) (inl h) = (tt, inl (refl, ap (λ x. x.0) h, refl))
  after_commit-IsAtomic work (st', some e) (inr (f, h)) =
      (tt, inr (λ k. ground arith, ap (λ x. x.0) h))
  after_commit-IsAtomic work (st', some e) (inl h) = ground arith
  after_commit-IsAtomic work (st', none) (inr (f, h)) = ground arith

  after_fn-IsAtomic :
      (db : TxDatabase S)
      → CommitsWhole db
      → (ran : S × Outcome) → IsAtomic st ran (deferred (after_fn db st ran))
  unfolding after_fn deferred rollback
  after_fn-IsAtomic db whole (work, returns none) =
      after_commit-IsAtomic work (db.commit st work) (whole st work)
  after_fn-IsAtomic db whole (work, returns (some e)) = (tt, inr (λ k. ground arith, refl))
  after_fn-IsAtomic db whole (work, panics) = (tt, inr (λ k. ground arith, refl))

  after_begin-IsAtomic :
      (db : TxDatabase S) (fn : S → S × Outcome)
      → CommitsWhole db
      → (b : Option Error) → IsAtomic st (fn st) (after_begin db fn st b)
  unfolding after_begin
  after_begin-IsAtomic db fn whole none = after_fn-IsAtomic db whole (fn st)
  after_begin-IsAtomic db fn whole (some e) = (tt, inr (λ k. ground arith, refl))

-- On a database whose commits are whole, `runTx` leaves no transaction open, also when `fn` panics; and
-- it either returns nil, with the work of `fn` as the state, or leaves the state as it was.
pub run_tx-IsAtomic :
    {S : Type 0} (db : TxDatabase S) (fn : S → S × Outcome) (st : S)
    → CommitsWhole db
    → IsAtomic st (fn st) (run_tx db fn st)
unfolding run_tx
run_tx-IsAtomic db fn st whole = after_begin-IsAtomic st db fn whole db.begin_err
