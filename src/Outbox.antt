-- ===== src/Outbox.antt =====
-- The outbox table and the row that it holds:
-- src/outbox/infrastructure/entities/outbox-event.entity.ts.
pub mod Claim
pub mod Relay
use bet_advise.Base.{ℕ, Bool, Option, List}
use bet_advise.Base.Text.{Text}

-- The values that the code writes to the `status` column.
pub data EventStatus : Type 0 where
  pending claimed published failed : EventStatus

-- Timestamps are milliseconds since the epoch; the JSON payload is whatever was stored.
pub record OutboxEvent (Json : Type 0) : Type 0 where
  pub id : Text
  pub tenant_id : Text
  pub type : Text
  pub schema_version : Text
  pub aggregate_type : Text
  pub aggregate_id : Text
  pub payload : Json
  pub payload_checksum : Text
  pub correlation_id : Text
  pub causation_id : Text
  pub status : EventStatus
  pub attempt_count : ℕ
  pub next_attempt_at : ℕ
  pub claim_owner : Option Text
  pub claimed_at : Option ℕ
  pub lease_until : Option ℕ
  pub published_at : Option ℕ
  pub last_error_code : Option Text
  pub last_error_summary : Option Text
  pub created_at : ℕ
  pub updated_at : ℕ

abbrev pub Table : Type 0 → Type 0
Table Json = List (OutboxEvent Json)
