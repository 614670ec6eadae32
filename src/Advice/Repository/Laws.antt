-- ===== src/Advice/Repository/Laws.antt =====
-- Advice and its outbox event are stored together.
use mathlib.Core.Path.{subst}
use bet_advise.Base.{
  ◌≡◌, refl, sym, ◌∙◌, ◌⊎◌, inl, inr, true, false, some, Option-cases, Bool-cases, List, [], ◌∷◌,
  ◌++◌, any, Occurs, arith,
}
use bet_advise.Base.Keyed.{Occurs-append_left, Occurs-append_last}
use bet_advise.Base.Exec.{Exec, ok, throw}
use bet_advise.Base.Number.{Arithmetic}
use bet_advise.Base.Text.{Text, is_empty, text_eq}
use bet_advise.Tenancy.{get_tenant_id}
use bet_advise.Outbox.{OutboxEvent, Table}
use bet_advise.Advice.{Advice}
use bet_advise.Advice.Repository.{
  AdviceEntity, AdviceData, AdvicePayload, Database, Transaction, RepositoryError, Services,
  not_committed, entity_of, event_of, to_domain,
}
use bet_advise.Advice.Repository.Atomic.{
  Session, commit, transact, roll_back, in_session, create_with_outbox,
}

module _ (n : Arithmetic) where
  open n use {Num}

  -- What is relied on in TypeORM's `save`: it touches no other row of the advice, and appends an
  -- event whose id is new.
  pub record IsStoring (services : Services Num) : Type 0 where
    pub advice_kept :
        (row r : AdviceEntity Num) (rows rows' : List (AdviceEntity Num))
        → services.save_advice row rows ≡ some rows'
        → Occurs r rows'
        → (r.id ≡ row.id) ⊎ Occurs r rows
    pub event_added :
        (e : OutboxEvent (AdvicePayload Num)) (t t' : Table (AdvicePayload Num))
        → any (λ r. text_eq r.id e.id) t ≡ false
        → services.save_event e t ≡ some t'
        → t' ≡ t ++ e ∷ []

  -- The advice and its event are saved, both under the tenant.
  abbrev pub IsSaved :
      Services Num → Transaction → Text → AdviceData Num → Database Num → Database Num → Type 0
  IsSaved services tx tenant details db db' =
      (services.save_advice (entity_of n tenant tx.now details) db.advice ≡ some db'.advice)
      × (services.save_event (event_of n services tx tenant details) db.outbox ≡ some db'.outbox)

  -- What a session comes to: nothing is committed and the call throws, or both rows are committed
  -- and the call returns the advice, or throws because the answer of the commit was lost.
  abbrev pub IsAtomic :
      Services Num
      → Transaction
      → Text
      → AdviceData Num
      → Database Num
      → Database Num
      → Exec RepositoryError (Advice Num)
      → Type 0
  IsAtomic services tx tenant details db db' result =
      ((db' ≡ db) × (e : RepositoryError) × (result ≡ throw e))
      ⊎ (IsSaved services tx tenant details db db'
          × ((result
                ≡ ok (to_domain n services.number_of tx.now (entity_of n tenant tx.now details)))
              ⊎ ((tx.commit_fails ≡ true)
                  × (tx.commit_applied ≡ true)
                  × (e : RepositoryError) × (result ≡ throw e))))

  -- What the `try` comes to.
  abbrev IsTried :
      Services Num
      → Transaction
      → Text
      → AdviceData Num
      → Database Num
      → Session Num × Exec RepositoryError (Unit {0})
      → Type 0
  IsTried services tx tenant details db (s, result) =
      ((s.committed ≡ db) × (e : RepositoryError) × (result ≡ throw e))
      ⊎ (IsSaved services tx tenant details db s.committed
          × (((result ≡ ok tt) × (s.is_transaction_active ≡ false))
              ⊎ ((tx.commit_fails ≡ true)
                  × (tx.commit_applied ≡ true)
                  × (e : RepositoryError) × (result ≡ throw e))))

  commit-IsTried :
      (services : Services Num) (tx : Transaction) (tenant : Text) (details : AdviceData Num)
      (db db' : Database Num)
      → IsSaved services tx tenant details db db'
      → IsTried services tx tenant details db
          (commit n tx (record { committed = db; working = db'; is_transaction_active = true }))
  unfolding commit
  commit-IsTried services tx tenant details db db' saved = elim (Bool-cases tx.commit_fails) [
    | inr works ↦
        let done : commit n tx s
            ≡ (record { committed = db'; working = db'; is_transaction_active = false }, ok tt) =
          rw (commit, works) refl in
        subst (IsTried services tx tenant details db) (sym done) (inr (saved, inl (refl, refl)))
    | inl fails ↦ elim (Bool-cases tx.commit_applied) [
      | inl applied ↦
          let done : commit n tx s ≡ (record s { committed = db' }, throw not_committed) =
            rw (commit, fails) (rw applied refl) in
          subst (IsTried services tx tenant details db) (sym done)
            (inr (saved, inr (fails, applied, RepositoryError.not_committed, refl)))
      | inr dropped ↦
          let done : commit n tx s ≡ (s, throw not_committed) =
            rw (commit, fails) (rw dropped refl) in
          subst (IsTried services tx tenant details db) (sym done)
            (inl (refl, RepositoryError.not_committed, refl))
    ]
  ]
    where
      s : Session Num
      s = record { committed = db; working = db'; is_transaction_active = true }

  transact-IsTried :
      (services : Services Num) (tx : Transaction) (tenant : Text) (details : AdviceData Num)
      (db : Database Num)
      → IsTried services tx tenant details db (transact n services tx tenant details db)
  unfolding transact
  transact-IsTried services tx tenant details db = elim (Bool-cases tx.connect_fails) [
    | inl fails ↦ rw (transact, fails) (inl (refl, RepositoryError.not_connected, refl))
    | inr connected ↦ elim (Bool-cases tx.start_fails) [
      | inl fails ↦
          rw (transact, connected) (rw fails (inl (refl, RepositoryError.not_started, refl)))
      | inr started ↦
          elim (Option-cases (services.save_advice (entity_of n tenant tx.now details) db.advice)) [
            | inl refused ↦
                rw (transact, connected)
                  (rw started (rw refused (inl (refl, RepositoryError.advice_refused, refl))))
            | inr (advice, saved) ↦
                elim (Option-cases
                  (services.save_event (event_of n services tx tenant details) db.outbox)) [
                    | inl refused ↦
                        rw (transact, connected)
                          (rw started (
                            rw saved
                              (rw refused (inl (refl, RepositoryError.outbox_refused, refl)))))
                    | inr (outbox, announced) ↦
                        let ended : transact n services tx tenant details db
                            ≡ commit n tx (record {
                              committed = db;
                              working = record { advice = advice; outbox = outbox };
                              is_transaction_active = true;
                            }) =
                          rw (transact, connected) (rw started (rw saved (rw announced refl))) in
                        subst (λ p. IsTried services tx tenant details db p) (sym ended)
                          (commit-IsTried services tx tenant details db
                            (record { advice = advice; outbox = outbox }) (saved, announced))
                  ]
          ]
    ]
  ]

  -- The rollback touches no committed row, and ends the transaction unless it fails.
  roll_back_lem :
      (tx : Transaction) (s : Session Num) (e : RepositoryError)
      → ((roll_back n tx s e).0.committed ≡ s.committed)
        × ((roll_back n tx s e).0.is_transaction_active ≡ true → tx.rollback_fails ≡ true)
  unfolding roll_back
  roll_back_lem tx s e = (ground arith, λ h. ground (arith, h))

  in_session-IsAtomic :
      (services : Services Num) (tx : Transaction) (tenant : Text) (details : AdviceData Num)
      (db : Database Num)
      → let (s, result) = in_session n services tx tenant details db in
        IsAtomic services tx tenant details db s.committed result
        × (s.is_transaction_active ≡ true → tx.rollback_fails ≡ true)
  unfolding in_session
  in_session-IsAtomic services tx tenant details db =
      let (s, done) = transact n services tx tenant details db in
      elim (transact-IsTried services tx tenant details db) [
        | inl (same, e, thrown) ↦
            let (kept, ended) = roll_back_lem tx s e in
            rw (in_session, thrown) (inl (kept ∙ same, (roll_back n tx s e).1, refl), ended)
        | inr (saved, inl (finished, inactive)) ↦
            rw (in_session, finished) (inr (saved, inl refl), λ h. ground arith)
        | inr (saved, inr (fails, applied, e, thrown)) ↦
            let (kept, ended) = roll_back_lem tx s e in
            rw (in_session, thrown)
              (inr (rw kept saved, inr (fails, applied, (roll_back n tx s e).1, refl)), ended)
      ]

  -- In the context of a tenant the call leaves the tables as they were and throws, or it saves the
  -- advice and the event of that advice, both under that tenant, and returns the advice; only where
  -- a commit was applied and its answer was lost are both saved although the call throws. And the
  -- connection is released with an open transaction only if the rollback failed.
  pub create_with_outbox-IsAtomic :
      (services : Services Num) (tx : Transaction) (tenant : Text) (details : AdviceData Num)
      (db : Database Num)
      → is_empty tenant ≡ false
      → let (db', result) = create_with_outbox n services tx (some tenant) details db in
        IsAtomic services tx tenant details db db' result
        × ((in_session n services tx tenant details db).0.is_transaction_active ≡ true
            → tx.rollback_fails ≡ true)
  unfolding create_with_outbox get_tenant_id
  create_with_outbox-IsAtomic services tx tenant details db filled =
      rw (create_with_outbox, filled) (in_session-IsAtomic services tx tenant details db)

  -- Each advice in the table has an event in the outbox that announces it.
  abbrev pub IsPaired : Database Num → Type 0
  IsPaired db =
      (r : AdviceEntity Num)
      → Occurs r db.advice
      → (e : OutboxEvent (AdvicePayload Num)) × Occurs e db.outbox × (e.aggregate_id ≡ r.id)

  pub create_with_outbox-IsPaired :
      (services : Services Num) (tx : Transaction) (tenant : Text) (details : AdviceData Num)
      (db : Database Num)
      → IsStoring services
      → any (λ r. text_eq r.id tx.event_id) db.outbox ≡ false
      → is_empty tenant ≡ false
      → IsPaired db
      → IsPaired (create_with_outbox n services tx (some tenant) details db).0
  unfolding event_of entity_of
  create_with_outbox-IsPaired services tx tenant details db storing new filled h =
      elim (create_with_outbox-IsAtomic services tx tenant details db filled).0 [
        | inl (same, e, thrown) ↦ rw same h
        | inr ((saved, announced), result) ↦ (λ r there.
            let e = event_of n services tx tenant details in
            let grown = storing.event_added e db.outbox _ new announced in
            elim (storing.advice_kept (entity_of n tenant tx.now details) r db.advice _ saved
              there) [
                | inl same ↦ (e, rw grown (Occurs-append_last e db.outbox), sym same)
                | inr before ↦
                    let (e', inside, about) = h r before in
                    (e', rw grown (Occurs-append_left e' db.outbox (e ∷ []) inside), about)
              ])
      ]
