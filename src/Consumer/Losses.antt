-- ===== src/Consumer/Losses.antt =====
-- What becomes of one message of advice, and of the messages around a broken one.
use bet_advise.Base.{
  ◌≡◌, refl, ap, ◌∙◌, true, false, not, Option, none, some, List, [], ◌∷◌, ◌++◌, inl, inr,
  Bool-cases, Option-cases, if◌then◌else◌,
}
use bet_advise.Base.Exec.{ok, throw}
use bet_advise.Base.Text.{Text, codes, text_or}
use bet_advise.Audit.{AuditError}
use bet_advise.Consumer.{
  InboxMessage, SqsMessage, Body, World, Delivery, inbox_id, delete_message, handle, settle,
  roll_back, process_reserved, reserve, process_for, process_body, process_message, process_all,
}
use bet_advise.Consumer.Message.{
  advice_generated, event_id_of, tenant_of, IsAdvice, IsSmooth, run-sanitized, key_of, log_of,
  row_of, handle-advice,
}
use bet_advise.Consumer.Inbox.{Save, upsert, IsUpsert, without, without-upsert}

module _ {Json : Type 0} where
  -- What follows the reservation of a message of advice.
  unfoldable pub after :
      Delivery → SqsMessage → Body Json → World Json → Option (List InboxMessage) → World Json
  unfolding settle
  after d m body w none = delete_message d m.receipt_handle w
  after d m body w (some inbox) =
      settle d m.receipt_handle (inbox_id (tenant_of body) (event_id_of m body))
        (record w { inbox = inbox })
        (ok (
          if d.writing.fails
          then throw AuditError.database_refused
          else ok (record w { inbox = inbox; audit_logs = w.audit_logs ++ log_of d m body ∷ [] })))

  -- What a message of advice should come to: a failure of the database at the reservation deletes
  -- the message; a failure of the audit log takes all reservations of the event away, or keeps the
  -- new one when the rollback fails too; else the event is reserved, audited and deleted.
  abbrev pub outcome : Delivery → SqsMessage → Body Json → World Json → World Json
  outcome d m body w =
      if d.saving_fails
      then delete_message d m.receipt_handle w
      else if not d.writing.fails
      then delete_message d m.receipt_handle (record w {
        inbox = upsert (row_of d m body) w.inbox;
        audit_logs = w.audit_logs ++ log_of d m body ∷ [];
      })
      else if d.rollback_fails
      then record w { inbox = upsert (row_of d m body) w.inbox }
      else record w { inbox = without (row_of d m body).id w.inbox }

module _ {Json : Type 0} (parse : Text → Option (Body Json)) (save : Save) where
  pub process_message-after :
      (d : Delivery) (m : SqsMessage) (body : Body Json) (w : World Json)
      → IsAdvice parse m body
      → process_message parse save d m w
        ≡ ok (
            after d m body w (
              reserve parse save d
                (inbox_id (tenant_of body) (event_id_of m body))
                (tenant_of body)
                w.inbox))
  unfolding process_message process_body process_for process_reserved after
  process_message-after d m body w a =
      rw (process_message, a.parsed)
        (rw a.typed (
          rw a.filled (elim (Option-cases R) [
            | inl refused ↦ rw refused refl
            | inr (inbox, reserved) ↦ rw reserved (
                rw a.typed (
                  ap (λ r. ok (settle d m.receipt_handle id (record w { inbox = inbox }) r))
                    (run-sanitized (text_or body.tenant_id (codes "default"))
                        (handle d body advice_generated (event_id_of m body)
                          (record w { inbox = inbox }))
                        a.filled
                      ∙ ap ok (handle-advice d m body (record w { inbox = inbox }) a.filled))))
          ])))
    where
      id : Text
      id = inbox_id (tenant_of body) (event_id_of m body)

      R : Option (List InboxMessage)
      R = reserve parse save d id (tenant_of body) w.inbox

  reserved-outcome :
      (d : Delivery) (m : SqsMessage) (body : Body Json) (w : World Json)
      → d.saving_fails ≡ false
      → after d m body w (some (upsert (row_of d m body) w.inbox)) ≡ outcome d m body w
  unfolding after settle roll_back
  reserved-outcome d m body w works = elim (Bool-cases d.writing.fails) [
    | inr written ↦ rw works (rw written refl)
    | inl refused ↦ elim (Bool-cases d.rollback_fails) [
      | inl fails ↦ rw works (rw refused (rw fails refl))
      | inr rolled ↦ rw works (
          rw refused (
            rw rolled
              (ap (λ i. record w { inbox = i }) (without-upsert (row_of d m body) w.inbox))))
    ]
  ]

  reserve-upserts :
      (d : Delivery) (m : SqsMessage) (body : Body Json) (w : World Json)
      → IsUpsert save
      → d.saving_fails ≡ false
      → reserve parse save d (row_of d m body).id (tenant_of body) w.inbox
        ≡ some (upsert (row_of d m body) w.inbox)
  unfolding reserve
  reserve-upserts d m body w up works = rw works (up.upserts (row_of d m body) w.inbox)

  after-outcome :
      (d : Delivery) (m : SqsMessage) (body : Body Json) (w : World Json)
      → IsUpsert save
      → after d m body w (reserve parse save d (row_of d m body).id (tenant_of body) w.inbox)
        ≡ outcome d m body w
  unfolding reserve after
  after-outcome d m body w up = elim (Bool-cases d.saving_fails) [
    | inl fails ↦ rw fails refl
    | inr works ↦
        ap (after d m body w) (reserve-upserts d m body w up works)
        ∙ reserved-outcome d m body w works
  ]

  -- A message of advice comes to the outcome above in each case, with `save` as TypeORM documents
  -- it, which updates a row whose id is there. In particular a database that fails at the
  -- reservation is taken for a duplicate: the message is deleted and its event is neither reserved
  -- nor audited. And the rollback after a failure of the audit log deletes every reservation of
  -- the event, that of an earlier delivery too.
  pub process_message-outcome :
      (d : Delivery) (m : SqsMessage) (body : Body Json) (w : World Json)
      → IsUpsert save
      → IsAdvice parse m body
      → process_message parse save d m w ≡ ok (outcome d m body w)
  process_message-outcome d m body w up a =
      process_message-after d m body w a ∙ ap ok (after-outcome d m body w up)

  pub process_message-upserts :
      (d : Delivery) (m : SqsMessage) (body : Body Json) (w : World Json)
      → IsUpsert save
      → IsAdvice parse m body
      → IsSmooth d
      → process_message parse save d m w
        ≡ ok (record {
          inbox = upsert (row_of d m body) w.inbox;
          audit_logs = w.audit_logs ++ log_of d m body ∷ [];
          deleted = w.deleted ++ m.receipt_handle ∷ [];
        })
  unfolding delete_message
  process_message-upserts d m body w up a (saved, written, deleted) =
      process_message-outcome d m body w up a ∙ rw saved (rw written (rw deleted refl))

  append_append : {A : Type 0} (xs : List A) (x y : A) → (xs ++ x ∷ []) ++ y ∷ [] ≡ xs ++ x ∷ y ∷ []
  append_append [] x y = refl
  append_append (z ∷ xs) x y = ap (λ t. z ∷ t) (append_append xs x y)

  -- With `save` as TypeORM documents it, the inbox does not refuse a message that SQS delivers
  -- again: both deliveries of a message of advice write an audit row for the same event.
  pub process_message-repeats :
      (d again : Delivery) (m : SqsMessage) (body : Body Json) (w : World Json)
      → IsUpsert save
      → IsAdvice parse m body
      → IsSmooth d
      → IsSmooth again
      → (w₁ : World Json) × (w₂ : World Json) × (process_message parse save d m w ≡ ok w₁)
        × (process_message parse save again m w₁ ≡ ok w₂)
        × (w₂.audit_logs ≡ w.audit_logs ++ log_of d m body ∷ log_of again m body ∷ [])
        × (key_of (log_of d m body) ≡ key_of (log_of again m body))
  process_message-repeats d again m body w up a smooth smooth' = (
    _,
    _,
    process_message-upserts d m body w up a smooth,
    process_message-upserts again m body _ up a smooth',
    append_append w.audit_logs (log_of d m body) (log_of again m body),
    refl,
  )

  -- A message whose body is not JSON is never deleted, and cuts off the messages of its poll that
  -- stand after it, whatever they are.
  pub process_all-poisoned :
      (before later : List (Delivery × SqsMessage)) (d : Delivery) (m : SqsMessage) (w : World Json)
      → parse (text_or m.body (codes "{}")) ≡ none
      → process_all parse save (before ++ (d, m) ∷ later) w
        ≡ ((process_all parse save before w).0, true)
  unfolding process_all process_message
  process_all-poisoned [] later d m w broken = rw (process_all, broken) refl
  process_all-poisoned ((d', m') ∷ before) later d m w broken =
      elim (Option-cases (parse (text_or m'.body (codes "{}")))) [
        | inl broken' ↦ rw (process_all, broken') refl
        | inr (body, parsed) ↦
            rw (process_all, parsed) (process_all-poisoned before later d m _ broken)
      ]
