-- ===== src/Consumer.antt =====
-- The SQS consumer: src/shared/infrastructure/queue/sqs-consumer.service.ts, with the inbox of
-- entities/processed-message.entity.ts. `JSON.parse` and TypeORM's `save` are parameters; where a
-- body is not JSON, or is one whose fields cannot be read as texts, `parse` gives `none`.
pub mod Inbox
pub mod Polling
pub mod Message
pub mod Losses
pub mod Lifecycle
use bet_advise.Base.{
  ℕ, ◌+◌, Bool, true, false, not, Option, none, some, List, [], ◌∷◌, ◌++◌, filter, ltb,
  if◌then◌else◌,
}
use bet_advise.Base.Exec.{Exec, ok, throw}
use bet_advise.Base.Text.{Text, codes, is_empty, text_eq, text_or}
use bet_advise.Tenancy.{Store, TenantError, sanitize, run}
use bet_advise.Audit.{AuditLog, AuditError, Writing, log}

-- `InboxMessageEntity`
pub record InboxMessage : Type 0 where
  pub id : Text
  pub tenant_id : Text
  pub processed_at : ℕ

-- A message of SQS, as far as it is read.
pub record SqsMessage : Type 0 where
  pub message_id : Text
  pub receipt_handle : Text
  pub body : Option Text

pub record Payload (Json : Type 0) : Type 0 where
  pub advice_id : Option Text
  pub content : Json

-- A parsed body. The fields that are read as texts are texts or missing.
pub record Body (Json : Type 0) : Type 0 where
  pub event_id : Option Text
  pub type : Option Text
  pub event_type : Option Text
  pub tenant_id : Option Text
  pub payload : Option (Payload Json)

-- The details that the audit log gets; a payload that is missing is `{}`.
pub record Details (Json : Type 0) : Type 0 where
  pub event_id : Text
  pub payload : Option (Payload Json)

-- The inbox, the audit log, and the receipts of the messages that SQS has deleted.
pub record World (Json : Type 0) : Type 0 where
  pub inbox : List InboxMessage
  pub audit_logs : List (AuditLog (Details Json))
  pub deleted : List Text

-- What happens around one message: the clock, the audit log's insert, and whether the database
-- fails at the reservation, whether it fails at the rollback, and whether SQS fails to delete.
pub record Delivery : Type 0 where
  pub now : ℕ
  pub writing : Writing
  pub saving_fails : Bool
  pub rollback_fails : Bool
  pub deleting_fails : Bool

pub data ParseError : Type 0 where
  not_json : ParseError

-- `${tenantId}:${eventId}:${handlerName}`
unfoldable pub inbox_id : Text → Text → Text
inbox_id tenant event_id = tenant ++ codes ":" ++ event_id ++ codes ":SqsConsumerService"

module _ {Json : Type 0} where
  -- `deleteMessage`: an exception of SQS is swallowed.
  unfoldable pub delete_message : Delivery → Text → World Json → World Json
  delete_message d receipt w =
      if d.deleting_fails then w else record w { deleted = w.deleted ++ receipt ∷ [] }

  -- `payload.adviceId || 'unknown'`
  abbrev advice_id_of : Option (Payload Json) → Text
  advice_id_of none = codes "unknown"
  advice_id_of (some p) = text_or p.advice_id (codes "unknown")

  -- The callback that runs within the tenant context.
  pub handle :
      Delivery → Body Json → Text → Text → World Json → Store → Exec AuditError (World Json)
  handle d body event_type event_id w store =
      let written =
        log d.writing store (codes "ADVICE_MESSAGE_PROCESSED") (codes "Advice")
          (advice_id_of body.payload) (some (codes "system"))
          (some (record { event_id = event_id; payload = body.payload })) w.audit_logs in
      if text_eq event_type (codes "ADVICE_GENERATED")
      then elim written [ throw e ↦ throw e | ok rows ↦ ok (record w { audit_logs = rows }) ]
      else ok w

  -- The `catch` after a reservation: it is deleted again.
  roll_back : Delivery → Text → World Json → World Json
  roll_back d id w =
      if d.rollback_fails
      then w
      else record w { inbox = filter (λ r. not (text_eq r.id id)) w.inbox }

  -- What follows the callback: the message is deleted from SQS, or the `catch`.
  pub settle :
      Delivery
      → Text
      → Text
      → World Json
      → Exec TenantError (Exec AuditError (World Json))
      → World Json
  unfolding roll_back
  settle d receipt id w (throw e) = roll_back d id w
  settle d receipt id w (ok (throw e)) = roll_back d id w
  settle d receipt id w (ok (ok w')) = delete_message d receipt w'

  -- Steps 2 and 3, with the reservation made.
  process_reserved :
      Delivery → SqsMessage → Body Json → Text → Text → Text → World Json → World Json
  unfolding handle settle
  process_reserved d m body event_type event_id tenant w =
      settle d m.receipt_handle (inbox_id tenant event_id) w
        (run tenant (handle d body event_type event_id w))

module _ {Json : Type 0} (parse : Text → Option (Body Json))
    (save : InboxMessage → List InboxMessage → Option (List InboxMessage)) where
  -- Step 1: the insert of the reservation; `none` is an exception.
  unfoldable pub reserve : Delivery → Text → Text → List InboxMessage → Option (List InboxMessage)
  reserve d id tenant inbox =
      if d.saving_fails
      then none
      else save (record { id = id; tenant_id = tenant; processed_at = d.now }) inbox

  process_for : Delivery → SqsMessage → Body Json → Text → Text → Text → World Json → World Json
  unfolding process_reserved
  process_for d m body event_type event_id tenant w =
      if is_empty tenant
      then delete_message d m.receipt_handle w
      else elim (reserve d (inbox_id tenant event_id) tenant w.inbox) [
        | none ↦ delete_message d m.receipt_handle w
        | some inbox ↦
            process_reserved d m body event_type event_id tenant (record w { inbox = inbox })
      ]

  process_body : Delivery → SqsMessage → Body Json → World Json → World Json
  unfolding process_for
  process_body d m body w =
      let event_id = text_or body.event_id m.message_id in
      let event_type = text_or body.type (text_or body.event_type []) in
      if is_empty event_type
      then delete_message d m.receipt_handle w
      else process_for d m body event_type event_id
          (sanitize (text_or body.tenant_id (codes "default"))) w

  -- `processMessageWithRetry`: `JSON.parse` stands before its `try`.
  unfoldable pub process_message : Delivery → SqsMessage → World Json → Exec ParseError (World Json)
  unfolding process_body
  process_message d m w = elim (parse (text_or m.body (codes "{}"))) [
    | none ↦ throw not_json
    | some body ↦ ok (process_body d m body w)
  ]

  -- The messages of one poll: an exception ends them. The Boolean says whether one was thrown.
  unfoldable pub process_all : List (Delivery × SqsMessage) → World Json → World Json × Bool
  unfolding process_message
  process_all [] w = (w, false)
  process_all ((d, m) ∷ ms) w = elim (process_message d m w) [
    | throw e ↦ (w, true)
    | ok w' ↦ process_all ms w'
  ]

  -- `pollLoop`, over what SQS answers until the consumer is stopped: `none` is an exception. After
  -- each exception the loop waits for five seconds and goes on.
  unfoldable pub poll_loop : List (Option (List (Delivery × SqsMessage))) → World Json → World Json
  unfolding process_all
  poll_loop [] w = w
  poll_loop (none ∷ responses) w = poll_loop responses w
  poll_loop (some ms ∷ responses) w = poll_loop responses (process_all ms w).0

-- `pruneOldInboxMessages`: rows older than seven days.
unfoldable pub prune : ℕ → List InboxMessage → List InboxMessage
prune now inbox = filter (λ r. not (ltb (r.processed_at + 604800000) now)) inbox
