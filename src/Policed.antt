-- ===== src/Policed.antt =====
-- What the policies of row-level security make of the queries of the program, for a role that they
-- bind: src/outbox/application/outbox-relay.service.ts and
-- src/shared/infrastructure/queue/sqs-consumer.service.ts.
use bet_advise.Base.{
  ◌≡◌, refl, ap, ◌∙◌, ◌⊎◌, inl, inr, ℕ, Bool, Bool-cases, true, false, Option, none, some, [],
}
use bet_advise.Base.Exec.{ok}
use bet_advise.Base.Text.{Text, codes, text_eq, member}
use bet_advise.Tenancy.Subscriber.{after_transaction_start}
use bet_advise.Tenancy.Policy.{
  permits, visible, checked_write, visible-none, after_transaction_start-outside,
}
use bet_advise.Outbox.{OutboxEvent, Table}
use bet_advise.Outbox.Claim.{claim_batch, update_where}
use bet_advise.Consumer.{
  InboxMessage, SqsMessage, Body, World, Delivery, inbox_id, delete_message, reserve,
  process_message,
}
use bet_advise.Consumer.Inbox.{Save}
use bet_advise.Consumer.Message.{IsAdvice, tenant_of, event_id_of}
use bet_advise.Consumer.Losses.{after, process_message-after}

claim_batch-nothing :
    {Json : Type 0} (batch_size now : ℕ) (locked : Text → Bool) (owner : Text)
    → claim_batch {Json = Json} batch_size now locked owner [] ≡ ([], [])
unfolding claim_batch update_where
claim_batch-nothing batch_size now locked owner = refl

-- The relay and the consumer open their transactions outside every tenant context. For a role that
-- the policies bind, the relay then sees no row of the outbox and claims nothing, whatever the
-- table holds; and each message of advice that the consumer receives is deleted, although its event
-- is neither reserved nor audited, since the refusal of the reservation counts as a duplicate.
pub checked_write-loses :
    {Json : Type 0} (parse : Text → Option (Body Json)) (save : Save) (d : Delivery)
    (m : SqsMessage) (body : Body Json) (w : World Json) (batch_size now : ℕ) (locked : Text → Bool)
    (owner : Text) (table : Table Json)
    → IsAdvice parse m body
    → (claim_batch batch_size now locked owner (
          visible
            (codes "outbox_events")
            (λ (r : OutboxEvent Json). r.tenant_id)
            (after_transaction_start (some none))
            table)
        ≡ ([], []))
      × (process_message parse
            (checked_write
              (codes "inbox_messages")
              (λ (r : InboxMessage). r.tenant_id)
              (after_transaction_start (some none))
              save)
            d
            m
            w
          ≡ ok (delete_message d m.receipt_handle w))
unfolding reserve after checked_write permits text_eq member
checked_write-loses parse save d m body w batch_size now locked owner table advice =
    rw after_transaction_start-outside (
      rw (visible-none (codes "outbox_events") (λ (r : OutboxEvent _). r.tenant_id) table refl)
          (claim_batch-nothing batch_size now locked owner),
      process_message-after parse _ d m body w advice ∙ ap ok (lost (Bool-cases d.saving_fails)),
    )
  where
    refuse : Save
    refuse = checked_write (codes "inbox_messages") (λ (r : InboxMessage). r.tenant_id) none save

    lost :
        (d.saving_fails ≡ true) ⊎ (d.saving_fails ≡ false)
        → after d m body w (
            reserve parse refuse d
              (inbox_id (tenant_of body) (event_id_of m body))
              (tenant_of body)
              w.inbox)
          ≡ delete_message d m.receipt_handle w
    lost (inl fails) = rw fails refl
    lost (inr works) = rw works refl
