-- ===== src/Advice/Repository.antt =====
-- The storage of advice: advice.mapper.ts, typeorm-advice.repository.ts and
-- entities/advice.entity.ts of src/advice/infrastructure.
pub mod Atomic
pub mod Laws
pub mod Queries
use bet_advise.Base.{
  ℕ, Bool, true, false, not, ◌&&◌, Option, none, some, List, [], ◌∷◌, map, filter, find, leb,
  if◌then◌else◌,
}
use bet_advise.Base.Exec.{Exec, ok, throw, ◌>>=◌, ◌>>◌, throw_if}
use bet_advise.Base.Number.{Arithmetic}
use bet_advise.Base.Text.{Text, codes, is_empty, text_eq}
use bet_advise.Tenancy.{Store, TenantError, get_tenant_id}
use bet_advise.Outbox.{OutboxEvent, pending, Table}
use bet_advise.Advice.{AdviceDecision, RejectionReason, Rationale, Advice}
use bet_advise.Advice.Evaluate.{create}

-- A numeric column: the number that was saved, or the text that the driver reads.
pub data Column (Num : Type 0) : Type 0 where
  number : Num → Column Num
  text : Text → Column Num

pub record AdviceEntity (Num : Type 0) : Type 0 where
  pub id : Text
  pub tenant_id : Text
  pub match_id : Text
  pub market : Text
  pub selection : Text
  pub decision : AdviceDecision
  pub rejection_reason : Option RejectionReason
  pub expected_value : Option (Column Num)
  pub edge : Option (Column Num)
  pub calibrated_probability : Option (Column Num)
  pub model_version : Option Text
  pub odds_quote_id : Option Text
  pub rationale : Rationale Num
  pub created_at : ℕ
  pub updated_at : ℕ

-- The data of `createWithOutbox`; its `tenantId` is not read.
pub record AdviceData (Num : Type 0) : Type 0 where
  pub id : Text
  pub match_id : Text
  pub market : Text
  pub selection : Text
  pub decision : AdviceDecision
  pub rejection_reason : Option RejectionReason
  pub expected_value : Option Num
  pub edge : Option Num
  pub calibrated_probability : Option Num
  pub model_version : Option Text
  pub odds_quote_id : Option Text
  pub rationale : Rationale Num

-- The payload of the outbox event.
pub record AdvicePayload (Num : Type 0) : Type 0 where
  pub advice_id : Text
  pub tenant_id : Text
  pub match_id : Text
  pub market : Text
  pub selection : Text
  pub decision : AdviceDecision
  pub expected_value : Option Num
  pub edge : Option Num
  pub calibrated_probability : Option Num

-- The two tables that the transaction writes.
pub record Database (Num : Type 0) : Type 0 where
  pub advice : List (AdviceEntity Num)
  pub outbox : Table (AdvicePayload Num)

-- What the transaction gets from outside: new ids, the clock, what fails, and whether a commit that
-- fails was applied all the same, its answer being lost.
pub record Transaction : Type 0 where
  pub event_id : Text
  pub correlation_id : Text
  pub now : ℕ
  pub connect_fails : Bool
  pub start_fails : Bool
  pub commit_fails : Bool
  pub commit_applied : Bool
  pub rollback_fails : Bool

pub data RepositoryError : Type 0 where
  no_tenant : TenantError → RepositoryError
  not_connected : RepositoryError
  not_started : RepositoryError
  advice_refused : RepositoryError
  outbox_refused : RepositoryError
  not_committed : RepositoryError
  not_rolled_back : RepositoryError

-- What the code is given: `Number` of a text, the checksum of a payload, and `save` on the tables.
pub record Services (Num : Type 0) : Type 0 where
  pub number_of : Text → Num
  pub checksum : AdvicePayload Num → Text
  pub save_advice : AdviceEntity Num → List (AdviceEntity Num) → Option (List (AdviceEntity Num))
  pub save_event :
      OutboxEvent (AdvicePayload Num)
      → Table (AdvicePayload Num)
      → Option (Table (AdvicePayload Num))

module _ (n : Arithmetic) where
  open n use {Num, is_truthy}

  -- `entity.edge ? Number(entity.edge) : null`
  unfoldable pub number_or_null : (Text → Num) → Option (Column Num) → Option Num
  number_or_null number_of none = none
  number_or_null number_of (some (number x)) = if is_truthy x then some x else none
  number_or_null number_of (some (text t)) = if is_empty t then none else some (number_of t)

  -- `AdviceMapper.toDomain`; `Advice.create` stamps the advice with the clock.
  unfoldable pub to_domain : (Text → Num) → ℕ → AdviceEntity Num → Advice Num
  unfolding number_or_null
  to_domain number_of now entity =
      create entity.id entity.tenant_id entity.match_id entity.market entity.selection
        entity.decision entity.rejection_reason (number_or_null number_of entity.expected_value)
        (number_or_null number_of entity.edge)
        (number_or_null number_of entity.calibrated_probability) entity.model_version
        entity.odds_quote_id entity.rationale now now

  -- The entity that is saved, and its event.
  unfoldable pub entity_of : Text → ℕ → AdviceData Num → AdviceEntity Num
  entity_of tenant now details = record {
    id = details.id;
    tenant_id = tenant;
    match_id = details.match_id;
    market = details.market;
    selection = details.selection;
    decision = details.decision;
    rejection_reason = details.rejection_reason;
    expected_value = elim details.expected_value [ none ↦ none | some x ↦ some (number x) ];
    edge = elim details.edge [ none ↦ none | some x ↦ some (number x) ];
    calibrated_probability = elim details.calibrated_probability [
      | none ↦ none
      | some x ↦ some (number x)
    ];
    model_version = details.model_version;
    odds_quote_id = details.odds_quote_id;
    rationale = details.rationale;
    created_at = now;
    updated_at = now;
  }

  unfoldable pub payload_of : Text → AdviceData Num → AdvicePayload Num
  payload_of tenant details = record {
    advice_id = details.id;
    tenant_id = tenant;
    match_id = details.match_id;
    market = details.market;
    selection = details.selection;
    decision = details.decision;
    expected_value = details.expected_value;
    edge = details.edge;
    calibrated_probability = details.calibrated_probability;
  }

  unfoldable pub event_of :
      Services Num → Transaction → Text → AdviceData Num → OutboxEvent (AdvicePayload Num)
  unfolding payload_of
  event_of services tx tenant details = record {
    id = tx.event_id;
    tenant_id = tenant;
    type = codes "ADVICE_GENERATED";
    schema_version = codes "1.0.0";
    aggregate_type = codes "Advice";
    aggregate_id = details.id;
    payload = payload_of tenant details;
    payload_checksum = services.checksum (payload_of tenant details);
    correlation_id = tx.correlation_id;
    causation_id = tx.event_id;
    status = pending;
    attempt_count = 0;
    next_attempt_at = tx.now;
    claim_owner = none;
    claimed_at = none;
    lease_until = none;
    published_at = none;
    last_error_code = none;
    last_error_summary = none;
    created_at = tx.now;
    updated_at = tx.now;
  }
