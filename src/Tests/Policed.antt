-- ===== src/Tests/Policed.antt =====
-- Tables under their policies.
use bet_advise.Base.{◌≡◌, [], some, none, ℕ}
use bet_advise.Base.Exec.{ok}
use bet_advise.Base.Text.{codes}
use bet_advise.Tenancy.Subscriber.{after_transaction_start}
use bet_advise.Tenancy.Policy.{visible, checked_write}
use bet_advise.Outbox.{OutboxEvent}
use bet_advise.Outbox.Claim.{claim_batch}
use bet_advise.Consumer.{InboxMessage, delete_message, process_message}
use bet_advise.Policed.{checked_write-loses}
use bet_advise.Tests.Consumer.{saving, parse, message, message-IsAdvice, smooth, fresh, advice_body}
use bet_advise.Tests.Outbox.{table, free}

checked_write-loses_example :
    (claim_batch 10 100 free (codes "w1") (
        visible
          (codes "outbox_events")
          (λ (r : OutboxEvent ℕ). r.tenant_id)
          (after_transaction_start (some none))
          table)
      ≡ ([], []))
    × (process_message parse
          (checked_write
            (codes "inbox_messages")
            (λ (r : InboxMessage). r.tenant_id)
            (after_transaction_start (some none))
            saving)
          smooth
          (message (codes "{advice}"))
          fresh
        ≡ ok (delete_message smooth (codes "r1") fresh))
checked_write-loses_example =
    checked_write-loses parse saving smooth (message (codes "{advice}")) advice_body fresh 10 100
      free (codes "w1") table message-IsAdvice
