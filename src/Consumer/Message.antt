-- ===== src/Consumer/Message.antt =====
-- A message that announces advice, as the consumer of
-- src/shared/infrastructure/queue/sqs-consumer.service.ts reads it, and the rows that it comes to.
use bet_advise.Base.{
  ◌≡◌, refl, false, Option, none, some, [], ◌∷◌, ◌++◌, inl, inr, Bool-cases, if◌then◌else◌,
}
use bet_advise.Base.Exec.{ok, throw}
use bet_advise.Base.Text.{Text, codes, is_empty, text_eq, text_or}
use bet_advise.Tenancy.{sanitize, run, get_tenant_id}
use bet_advise.Tenancy.Sanitize.{sanitize_idempotent}
use bet_advise.Audit.{AuditLog, AuditError, log, create_log}
use bet_advise.Consumer.{
  InboxMessage, SqsMessage, Body, Details, World, Delivery, advice_id_of, inbox_id, handle,
}

abbrev pub advice_generated : Text
advice_generated = codes "ADVICE_GENERATED"

-- The ids of a message, as the consumer reads them.
abbrev pub event_id_of : {Json : Type 0} → SqsMessage → Body Json → Text
event_id_of m body = text_or body.event_id m.message_id

abbrev pub tenant_of : {Json : Type 0} → Body Json → Text
tenant_of body = sanitize (text_or body.tenant_id (codes "default"))

-- The message announces advice for a tenant that the cleaning leaves something of.
pub record IsAdvice {Json : Type 0} (parse : Text → Option (Body Json)) (m : SqsMessage)
    (body : Body Json) : Type 0 where
  pub parsed : parse (text_or m.body (codes "{}")) ≡ some body
  pub typed : text_or body.type (text_or body.event_type []) ≡ advice_generated
  pub filled : is_empty (tenant_of body) ≡ false

-- A delivery during which nothing fails.
abbrev pub IsSmooth : Delivery → Type 0
IsSmooth d = (d.saving_fails ≡ false) × (d.writing.fails ≡ false) × (d.deleting_fails ≡ false)

pub run-sanitized :
    {A : Type 0} (raw : Text) (f : Option Text → A)
    → is_empty (sanitize raw) ≡ false
    → run (sanitize raw) f ≡ ok (f (some (sanitize raw)))
unfolding run
run-sanitized raw f filled = rw (sanitize_idempotent raw).1 (rw filled refl)

module _ {Json : Type 0} where
  abbrev event_of : Option (Details Json) → Text
  event_of none = []
  event_of (some d) = d.event_id

  -- The inbox id of the event that an audit row is about.
  abbrev pub key_of : AuditLog (Details Json) → Text
  key_of l = inbox_id l.tenant_id (event_of l.payload)

  -- The audit row and the inbox row of a message.
  abbrev pub log_of : Delivery → SqsMessage → Body Json → AuditLog (Details Json)
  log_of d m body = record {
    id = d.writing.id;
    tenant_id = tenant_of body;
    actor = some (codes "system");
    action = codes "ADVICE_MESSAGE_PROCESSED";
    entity_type = codes "Advice";
    entity_id = advice_id_of body.payload;
    payload = some (record { event_id = event_id_of m body; payload = body.payload });
    created_at = d.writing.now;
  }

  abbrev pub row_of : Delivery → SqsMessage → Body Json → InboxMessage
  row_of d m body = record {
    id = inbox_id (tenant_of body) (event_id_of m body);
    tenant_id = tenant_of body;
    processed_at = d.now;
  }

  pub handle-advice :
      (d : Delivery) (m : SqsMessage) (body : Body Json) (w : World Json)
      → is_empty (tenant_of body) ≡ false
      → handle d body advice_generated (event_id_of m body) w (some (tenant_of body)) ≡ (
          if d.writing.fails
          then throw AuditError.database_refused
          else ok (record w { audit_logs = w.audit_logs ++ log_of d m body ∷ [] }))
  unfolding handle log create_log get_tenant_id text_eq
  handle-advice d m body w filled = elim (Bool-cases d.writing.fails) [
    | inl fails ↦ rw filled (rw fails refl)
    | inr works ↦ rw filled (rw works refl)
  ]
