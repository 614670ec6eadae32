-- ===== src/Pipeline.antt =====
-- From a stored advice to its audit row: the event that
-- src/advice/infrastructure/typeorm-advice.repository.ts writes, which
-- src/outbox/application/outbox-relay.service.ts sends through
-- src/shared/infrastructure/queue/sqs-message-queue.adapter.ts, and
-- src/shared/infrastructure/queue/sqs-consumer.service.ts receives.
use bet_advise.Base.Keyed.{Occurs-All}
use bet_advise.Base.{
  arith, ◌≡◌, refl, sym, ap, ◌∙◌, false, Option, none, some, List, [], ◌∷◌, ◌++◌, All, Occurs,
}
use bet_advise.Base.Exec.{Exec, bind-ok, ok, throw}
use bet_advise.Base.Number.{Arithmetic}
use bet_advise.Base.Text.{Text, codes, is_empty, text_or}
use bet_advise.Tenancy.{sanitize}
use bet_advise.Tenancy.Sanitize.{sanitize_idempotent}
use bet_advise.Audit.{AuditLog}
use bet_advise.Outbox.Claim.{claim_batch, mark_claimed}
use bet_advise.Outbox.Relay.{
  RelayConfig, RelayError, Cycle, RelayService, OutboxMessage, message_of, process_outbox,
}
use bet_advise.Outbox.Relay.Delivery.{IsDelivered, Succeeds, process_outbox-delivers}
use bet_advise.Publisher.{Attributes, attributes_of, publish, body_string}
use bet_advise.Publisher
use bet_advise.Advice.Repository.{
  AdviceData, AdvicePayload, Transaction, Services, event_of, payload_of,
}
use bet_advise.Consumer.{
  InboxMessage, SqsMessage, Body, Details, World, Delivery, inbox_id, process_message,
}
use bet_advise.Consumer.Inbox.{Save, upsert, IsUpsert}
use bet_advise.Consumer.Message.{IsAdvice, IsSmooth, tenant_of, event_id_of}
use bet_advise.Consumer.Losses.{process_message-upserts}

module _ (n : Arithmetic) where
  open n use {Num}

  -- What the consumer reads out of a message of the relay.
  abbrev pub body_of : OutboxMessage (AdvicePayload Num) → Body (AdvicePayload Num)
  body_of message = record {
    event_id = some message.event_id;
    type = some message.type;
    event_type = none;
    tenant_id = some message.tenant_id;
    payload =
        some (record { advice_id = some message.payload.advice_id; content = message.payload });
  }

  -- `JSON.parse` gives back what `JSON.stringify` printed of a message, which is not empty.
  pub record IsWire {E : Type 0} (stringify : OutboxMessage (AdvicePayload Num) → Exec E Text)
      (parse : Text → Option (Body (AdvicePayload Num)))
      (message : OutboxMessage (AdvicePayload Num)) : Type 0 where
    pub parsed : (t : Text) → stringify message ≡ ok t → parse t ≡ some (body_of message)
    pub filled : (t : Text) → stringify message ≡ ok t → is_empty t ≡ false

  -- The audit row of an advice of a tenant.
  abbrev pub audit_row :
      Delivery → Text → Transaction → AdviceData Num → AuditLog (Details (AdvicePayload Num))
  audit_row d tenant tx details = record {
    id = d.writing.id;
    tenant_id = tenant;
    actor = some (codes "system");
    action = codes "ADVICE_MESSAGE_PROCESSED";
    entity_type = codes "Advice";
    entity_id = details.id;
    payload = some (record {
      event_id = tx.event_id;
      payload =
          some (record { advice_id = some details.id; content = payload_of n tenant details });
    });
    created_at = d.writing.now;
  }

  publish-sent :
      {E : Type 0} (stringify : OutboxMessage (AdvicePayload Num) → Exec E Text)
      (send : Text → List (Text × Text) → Exec E (Unit {0}))
      (message : OutboxMessage (AdvicePayload Num)) (attributes : Option Attributes)
      → publish stringify send (Publisher.json message) attributes ≡ ok tt
      → (t : Text) × (stringify message ≡ ok t) × (send t (attributes_of attributes) ≡ ok tt)
  unfolding publish body_string
  publish-sent stringify send message attributes h =
      bind-ok (stringify message) (λ t. send t (attributes_of attributes)) tt h

  text_or-filled : (t d : Text) → is_empty t ≡ false → text_or (some t) d ≡ t
  text_or-filled t d filled = rw filled refl

  -- The message that is received is read as the advice that was sent.
  received-IsAdvice :
      {E : Type 0} (stringify : OutboxMessage (AdvicePayload Num) → Exec E Text)
      (parse : Text → Option (Body (AdvicePayload Num))) (services : Services Num)
      (tx : Transaction) (x t : Text) (details : AdviceData Num) (m : SqsMessage)
      → IsWire stringify parse (message_of (event_of n services tx (sanitize x) details))
      → stringify (message_of (event_of n services tx (sanitize x) details)) ≡ ok t
      → m.body ≡ some t
      → is_empty (sanitize x) ≡ false
      → IsAdvice parse m (body_of (message_of (event_of n services tx (sanitize x) details)))
        × (tenant_of (body_of (message_of (event_of n services tx (sanitize x) details)))
            ≡ sanitize x)
  unfolding event_of message_of
  received-IsAdvice stringify parse services tx x t details m wire printed carried named =
      let e = event_of n services tx (sanitize x) details in
      let same : tenant_of (body_of (message_of e)) ≡ sanitize x =
        ap sanitize (text_or-filled (sanitize x) (codes "default") named)
        ∙ (sanitize_idempotent x).1 in
      (
        record {
          parsed = rw carried (
              ap parse (text_or-filled t (codes "{}") (wire.filled t printed))
              ∙ wire.parsed t printed);
          typed = refl;
          filled = rw same named;
        },
        same,
      )

  -- The inbox row of an event.
  abbrev pub inbox_row : Delivery → Text → Transaction → InboxMessage
  inbox_row d tenant tx = record {
    id = inbox_id tenant tx.event_id;
    tenant_id = tenant;
    processed_at = d.now;
  }

  -- What the relay sees of an answer of the publisher: nothing, or its error.
  abbrev pub answer_of : {E : Type 0} → (E → RelayError) → Exec E (Unit {0}) → Option RelayError
  answer_of error_of (ok _) = none
  answer_of error_of (throw e) = some (error_of e)

  answer_of-none :
      {E : Type 0} (error_of : E → RelayError) (r : Exec E (Unit {0}))
      → answer_of error_of r ≡ none
      → r ≡ ok tt
  answer_of-none error_of (ok _) h = refl
  answer_of-none error_of (throw e) h = ground arith

  -- The event of an advice that was stored for a tenant, when a cycle of the relay claims it and
  -- nothing refuses a claimed event, is sent and marked as published. The relay's answer for it is
  -- that of the publisher, so that the publisher got its message through. When SQS then delivers
  -- the body that it took, `JSON.parse` undoes `JSON.stringify`, and `save` is TypeORM's upsert, a
  -- delivery without a failure reserves the event, writes the audit row of exactly this advice
  -- under exactly this tenant, and deletes the message.
  pub event_of-audited :
      {E : Type 0} (stringify : OutboxMessage (AdvicePayload Num) → Exec E Text)
      (parse : Text → Option (Body (AdvicePayload Num))) (save : Save)
      (send : Text → List (Text × Text) → Exec E (Unit {0})) (error_of : E → RelayError)
      (attributes : Option Attributes) (services : Services Num) (tx : Transaction) (x : Text)
      (details : AdviceData Num) (c : RelayConfig) (y : Cycle)
      (s : RelayService (AdvicePayload Num)) (d : Delivery) (m : SqsMessage)
      (w : World (AdvicePayload Num))
      → IsWire stringify parse (message_of (event_of n services tx (sanitize x) details))
      → IsUpsert save
      → is_empty (sanitize x) ≡ false
      → is_empty tx.event_id ≡ false
      → is_empty details.id ≡ false
      → s.processing ≡ false
      → y.claim_fails ≡ false
      → All (Succeeds y.attempt) (claim_batch c.batch_size y.now y.locked y.owner s.world.table).1
      → Occurs
          (mark_claimed y.owner y.now (event_of n services tx (sanitize x) details))
          (claim_batch c.batch_size y.now y.locked y.owner s.world.table).1
      → (y.attempt tx.event_id).publishing
        ≡ answer_of error_of (
            publish stringify send
              (Publisher.json (message_of (event_of n services tx (sanitize x) details)))
              attributes)
      → ((t : Text)
          → stringify (message_of (event_of n services tx (sanitize x) details)) ≡ ok t
          → send t (attributes_of attributes) ≡ ok tt
          → m.body ≡ some t)
      → IsSmooth d
      → IsDelivered
          (mark_claimed y.owner y.now (event_of n services tx (sanitize x) details))
          (process_outbox c y s).world
        × (process_message parse save d m w
            ≡ ok (record {
              inbox = upsert (inbox_row d (sanitize x) tx) w.inbox;
              audit_logs = w.audit_logs ++ audit_row d (sanitize x) tx details ∷ [];
              deleted = w.deleted ++ m.receipt_handle ∷ [];
            }))
  unfolding event_of message_of
  event_of-audited stringify parse save send error_of attributes services tx x details c y s d m w
        wire up named event_named advice_named idle goes oks claimed linked carries smooth =
      let e = event_of n services tx (sanitize x) details in
      let body = body_of (message_of e) in
      let succeeds = Occurs-All (Succeeds y.attempt) (mark_claimed y.owner y.now e) _ oks claimed in
      let sent : publish stringify send (Publisher.json (message_of e)) attributes ≡ ok tt =
        answer_of-none error_of _ (sym linked ∙ succeeds.0) in
      let (t, printed, taken) = publish-sent stringify send (message_of e) attributes sent in
      let (advice, same) =
        received-IsAdvice stringify parse services tx x t details m wire printed
          (carries t printed taken) named in
      let about : text_or (some details.id) (codes "unknown") ≡ details.id =
        text_or-filled details.id (codes "unknown") advice_named in
      let id : event_id_of m body ≡ tx.event_id =
        text_or-filled tx.event_id m.message_id event_named in
      (
        process_outbox-delivers c y s (mark_claimed y.owner y.now e) idle goes oks claimed,
        process_message-upserts parse save d m body w up advice smooth
            ∙ rw same (rw id (rw about refl)),
      )
