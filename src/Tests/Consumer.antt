-- ===== src/Tests/Consumer.antt =====
-- The consumer on two messages and a broken one, with an inbox that upserts.
use bet_advise.Base.{ℕ, ◌≡◌, refl, true, false, Option, none, some, List, [], ◌∷◌, if◌then◌else◌}
use bet_advise.Base.Exec.{ok}
use bet_advise.Base.Text.{Text, codes, text_eq}
use bet_advise.Tenancy.{sanitize}
use bet_advise.Consumer.{SqsMessage, Body, World, Delivery, process_message, poll_loop}
use bet_advise.Consumer.Inbox.{Save, upsert, IsUpsert}
use bet_advise.Consumer.Polling.{received, IsGrown, poll_loop-IsGrown}
use bet_advise.Consumer.Message.{IsAdvice, key_of, log_of}
use bet_advise.Consumer.Losses.{outcome, process_message-outcome, process_message-repeats}

abbrev pub saving : Save
saving r inbox = some (upsert r inbox)

pub saving-IsUpsert : IsUpsert saving
saving-IsUpsert = record { upserts = λ r inbox. refl }

abbrev pub advice_body : Body ℕ
advice_body = record {
  event_id = some (codes "e1");
  type = some (codes "ADVICE_GENERATED");
  event_type = none;
  tenant_id = some (codes " T1 ");
  payload = some (record { advice_id = some (codes "a1"); content = 7 });
}

abbrev pub parse : Text → Option (Body ℕ)
parse t = if text_eq t (codes "{advice}") then some advice_body else none

abbrev pub message : Text → SqsMessage
message body = record { message_id = codes "m1"; receipt_handle = codes "r1"; body = some body }

abbrev pub smooth : Delivery
smooth = record {
  now = 100;
  writing = record { id = codes "l1"; now = 101; fails = false };
  saving_fails = false;
  rollback_fails = false;
  deleting_fails = false;
}

abbrev unwritten : Delivery
unwritten = record smooth { writing = record { id = codes "l0"; now = 99; fails = true } }

abbrev pub fresh : World ℕ
fresh = record { inbox = []; audit_logs = []; deleted = [] }

pub message-IsAdvice : IsAdvice parse (message (codes "{advice}")) advice_body
unfolding text_eq sanitize
message-IsAdvice = record { parsed = refl; typed = refl; filled = refl }

-- A failure of the audit log, a delivery that works, and a repetition.
abbrev pub responses : List (Option (List (Delivery × SqsMessage)))
responses =
    some ((unwritten, message (codes "{advice}")) ∷ (smooth, message (codes "{advice}")) ∷ [])
    ∷ none
    ∷ some ((smooth, message (codes "{advice}")) ∷ [])
    ∷ []

poll_loop-IsGrown_example :
    IsGrown parse saving (received responses) [] (poll_loop parse saving responses fresh).audit_logs
poll_loop-IsGrown_example = poll_loop-IsGrown parse saving responses fresh

process_message-outcome_example :
    process_message parse saving unwritten (message (codes "{advice}")) fresh
    ≡ ok (outcome unwritten (message (codes "{advice}")) advice_body fresh)
process_message-outcome_example =
    process_message-outcome parse saving unwritten (message (codes "{advice}")) advice_body fresh
      saving-IsUpsert message-IsAdvice

process_message-repeats_example :
    (w₁ : World ℕ) × (w₂ : World ℕ) × (process_message parse saving smooth
        (message (codes "{advice}"))
        fresh
      ≡ ok w₁)
    × (process_message parse saving smooth (message (codes "{advice}")) w₁ ≡ ok w₂)
    × (w₂.audit_logs
        ≡ log_of smooth (message (codes "{advice}")) advice_body
          ∷ log_of smooth (message (codes "{advice}")) advice_body
          ∷ [])
    × (key_of (log_of smooth (message (codes "{advice}")) advice_body)
        ≡ key_of (log_of smooth (message (codes "{advice}")) advice_body))
process_message-repeats_example =
    process_message-repeats parse saving smooth smooth (message (codes "{advice}")) advice_body
      fresh saving-IsUpsert message-IsAdvice (refl, refl, refl) (refl, refl, refl)
