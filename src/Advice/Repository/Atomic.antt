-- ===== src/Advice/Repository/Atomic.antt =====
-- `createWithOutbox` of src/advice/infrastructure/typeorm-advice.repository.ts: its transaction.
use bet_advise.Base.{Bool, true, false, not, none, some, if◌then◌else◌}
use bet_advise.Base.Exec.{Exec, ok, throw}
use bet_advise.Base.Number.{Arithmetic}
use bet_advise.Base.Text.{Text}
use bet_advise.Tenancy.{Store, get_tenant_id}
use bet_advise.Advice.{Advice}
use bet_advise.Advice.Repository.{
  AdviceData, Database, Transaction, RepositoryError, no_tenant, not_connected, not_started,
  advice_refused, outbox_refused, not_committed, not_rolled_back, Services, to_domain, entity_of,
  event_of,
}

-- What the query runner has open: the committed tables, those that its transaction sees, and
-- `isTransactionActive`.
pub record Session (Num : Type 0) : Type 0 where
  pub committed : Database Num
  pub working : Database Num
  pub is_transaction_active : Bool

module _ (n : Arithmetic) where
  open n use {Num}

  -- A query runner without a transaction.
  abbrev idle : Database Num → Session Num
  idle db = record { committed = db; working = db; is_transaction_active = false }

  -- `commitTransaction`. The transaction stays active where it throws.
  unfoldable pub commit : Transaction → Session Num → Session Num × Exec RepositoryError (Unit {0})
  commit tx s = if not tx.commit_fails then (idle s.working, ok tt) else (
    record s { committed = if tx.commit_applied then s.working else s.committed },
    throw not_committed,
  )

  -- The `try`, from the connection to the commit.
  unfoldable pub transact :
      Services Num
      → Transaction
      → Text
      → AdviceData Num
      → Database Num
      → Session Num × Exec RepositoryError (Unit {0})
  unfolding entity_of event_of commit
  transact services tx tenant details db =
      let started : Session Num = record {
        committed = db;
        working = db;
        is_transaction_active = true;
      } in
      if tx.connect_fails
      then (idle db, throw not_connected)
      else if tx.start_fails
      then (idle db, throw not_started)
      else elim (services.save_advice (entity_of n tenant tx.now details) db.advice) [
        | none ↦ (started, throw advice_refused)
        | some advice ↦
            elim (services.save_event (event_of n services tx tenant details) db.outbox) [
              | none ↦ (
                record started { working = record { advice = advice; outbox = db.outbox } },
                throw outbox_refused,
              )
              | some outbox ↦
                  commit tx
                    (record started { working = record { advice = advice; outbox = outbox } })
            ]
      ]

  -- The `catch`: an active transaction is rolled back, and an error of that replaces the first.
  unfoldable pub roll_back :
      Transaction → Session Num → RepositoryError → Session Num × RepositoryError
  roll_back tx s e =
      if not s.is_transaction_active
      then (s, e)
      else if tx.rollback_fails
      then (s, not_rolled_back)
      else (idle s.committed, e)

  -- The session that is released at the end, and what the call returns or throws.
  unfoldable pub in_session :
      Services Num
      → Transaction
      → Text
      → AdviceData Num
      → Database Num
      → Session Num × Exec RepositoryError (Advice Num)
  unfolding transact roll_back to_domain
  in_session services tx tenant details db =
      let (s, done) = transact services tx tenant details db in
      elim done [
        | ok _ ↦ (s, ok (to_domain n services.number_of tx.now (entity_of n tenant tx.now details)))
        | throw e ↦ let (s', e') = roll_back tx s e in (s', throw e')
      ]

  -- `createWithOutbox`: the committed tables after it, and what it returns or throws.
  unfoldable pub create_with_outbox :
      Services Num
      → Transaction
      → Store
      → AdviceData Num
      → Database Num
      → Database Num × Exec RepositoryError (Advice Num)
  unfolding in_session
  create_with_outbox services tx store details db = elim (get_tenant_id store) [
    | throw e ↦ (db, throw (no_tenant e))
    | ok tenant ↦ let (s, done) = in_session services tx tenant details db in (s.committed, done)
  ]
