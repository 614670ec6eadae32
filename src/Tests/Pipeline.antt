-- ===== src/Tests/Pipeline.antt =====
-- The advice of a tenant on its way to the audit log.
use bet_advise.Base.{◌≡◌, refl, inl, false, Option, none, some, List, [], ◌∷◌, if◌then◌else◌, arith}
use bet_advise.Base.Exec.{Exec, ok, throw}
use bet_advise.Base.Text.{Text, codes, text_eq, member}
use bet_advise.Tenancy.{sanitize}
use bet_advise.Outbox.{OutboxEvent}
use bet_advise.Outbox.Claim.{claim_batch, is_due, by_age, mark_claimed}
use bet_advise.Outbox.Relay.{
  RelayError, Cycle, RelayService, OutboxMessage, message_of, process_outbox,
}
use bet_advise.Outbox.Relay.Delivery.{IsDelivered}
use bet_advise.Publisher.{attributes_of, publish, json}
use bet_advise.Advice.Repository.{AdvicePayload, event_of}
use bet_advise.Consumer.{SqsMessage, Body, World, process_message}
use bet_advise.Consumer.Inbox.{upsert}
use bet_advise.Pipeline.{IsWire, body_of, answer_of, audit_row, inbox_row, event_of-audited}
use bet_advise.Tests.Consumer.{saving, saving-IsUpsert, smooth}
use bet_advise.Tests.Fixed.{Fixed, fixed}
use bet_advise.Tests.Generation.{services, works, details}
use bet_advise.Tests.Outbox.{config, cycle, fine, free}

abbrev stored : OutboxEvent (AdvicePayload Fixed)
stored = event_of fixed services works (sanitize (codes " T1 ")) details

abbrev stringify : OutboxMessage (AdvicePayload Fixed) → Exec Text Text
stringify message = ok (codes "{event}")

abbrev parse : Text → Option (Body (AdvicePayload Fixed))
parse t = some (body_of fixed (message_of stored))

wire : IsWire fixed stringify parse (message_of stored)
wire = record { parsed = λ t h. refl; filled = λ t h. ground (arith, h) }

-- SQS takes this body.
abbrev send : Text → List (Text × Text) → Exec Text (Unit {0})
send u attributes = if text_eq u (codes "{event}") then ok tt else throw (codes "refused")

abbrev received : SqsMessage
received = record {
  message_id = codes "m1";
  receipt_handle = codes "r1";
  body = some (codes "{event}");
}

received-sent :
    (t : Text) → stringify (message_of stored) ≡ ok t → send t [] ≡ ok tt → received.body ≡ some t
received-sent t h k = ground (arith, h)

abbrev error_of : Text → RelayError
error_of t = record { message = t; printed = t; code = [] }

abbrev waiting : RelayService (AdvicePayload Fixed)
waiting = record { processing = false; world = record { table = stored ∷ []; sent = [] } }

abbrev later : Cycle
later = record (cycle fine) { now = 9100 }

abbrev fresh : World (AdvicePayload Fixed)
fresh = record { inbox = []; audit_logs = []; deleted = [] }

claimed_stored :
    (claim_batch 10 9100 free (codes "w1") (stored ∷ [])).1
    ≡ mark_claimed (codes "w1") 9100 stored ∷ []
unfolding claim_batch is_due by_age member text_eq event_of
claimed_stored = refl

published :
    (later.attempt works.event_id).publishing
    ≡ answer_of fixed error_of (publish stringify send (json (message_of stored)) none)
unfolding publish text_eq attributes_of
published = refl

named : sanitize (codes " T1 ") ≡ codes "t1"
unfolding sanitize
named = refl

event_of-audited_example :
    IsDelivered (mark_claimed (codes "w1") 9100 stored) (process_outbox config later waiting).world
    × (process_message parse saving smooth received fresh
        ≡ ok (record {
          inbox = upsert (inbox_row fixed smooth (sanitize (codes " T1 ")) works) [];
          audit_logs = audit_row fixed smooth (sanitize (codes " T1 ")) works details ∷ [];
          deleted = codes "r1" ∷ [];
        }))
unfolding attributes_of member
event_of-audited_example =
    event_of-audited fixed stringify parse saving send error_of none services works (codes " T1 ")
      details config later waiting smooth received fresh wire saving-IsUpsert (rw named refl) refl
      refl refl refl (rw claimed_stored ((refl, refl), tt)) (rw claimed_stored (inl refl)) published
      received-sent (refl, refl, refl)
