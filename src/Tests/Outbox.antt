-- ===== src/Tests/Outbox.antt =====
-- A table of three events, relayed while the queue answers in different ways.
use bet_advise.Base.{
  ℕ, ◌≡◌, refl, inl, inr, none, some, Bool, false, [], ◌∷◌, map, Occurs, All, arith,
}
use bet_advise.Base.Text.{Text, codes, text_eq, member, Distinct}
use bet_advise.Outbox.{pending, claimed, OutboxEvent, Table}
use bet_advise.Outbox.Claim.{claim_batch, is_due, by_age, mark_claimed}
use bet_advise.Outbox.Claim.Laws.{id_of, claim_batch-exclusive}
use bet_advise.Outbox.Relay.{RelayConfig, Attempt, Cycle, RelayService, process_outbox}
use bet_advise.Outbox.Relay.Frame.{process_outbox-passes_over}
use bet_advise.Outbox.Relay.Retry.{IsBounded, process_outbox-IsBounded}
use bet_advise.Outbox.Relay.Delivery.{IsHonest, process_outbox-IsHonest}

-- The payload is a number here.
abbrev event : Text → ℕ → OutboxEvent ℕ
event id at = record {
  id = id;
  tenant_id = codes "t1";
  type = codes "ADVICE_GENERATED";
  schema_version = codes "1.0.0";
  aggregate_type = codes "Advice";
  aggregate_id = codes "a1";
  payload = 7;
  payload_checksum = codes "c";
  correlation_id = codes "r";
  causation_id = id;
  status = pending;
  attempt_count = 0;
  next_attempt_at = at;
  claim_owner = none;
  claimed_at = none;
  lease_until = none;
  published_at = none;
  last_error_code = none;
  last_error_summary = none;
  created_at = at;
  updated_at = at;
}

abbrev stuck : OutboxEvent ℕ
stuck = record (event (codes "e3") 10) { status = claimed; lease_until = some 70 }

abbrev pub table : Table ℕ
table = event (codes "e2") 50 ∷ event (codes "e1") 40 ∷ stuck ∷ []

ids-Distinct : Distinct (map id_of table)
unfolding member text_eq
ids-Distinct = (refl, (refl, (refl, tt)))

abbrev pub free : Text → Bool
free id = false

claim_one :
    (claim_batch 1 100 free (codes "w1") table).1
    ≡ mark_claimed (codes "w1") 100 (event (codes "e1") 40) ∷ []
unfolding claim_batch is_due by_age member text_eq
claim_one = refl

abbrev pub fine : Attempt
fine = record { publishing = none; marking = none; recording = none; now = 101; jitter = 5 }

abbrev down : Attempt
down = record fine {
  publishing = some (record { message = codes "no queue"; printed = codes "Error"; code = [] });
}

abbrev pub config : RelayConfig
config = record { batch_size = 10; max_attempts = 1; queue_url = codes "q" }

abbrev pub cycle : Attempt → Cycle
cycle a = record {
  claim_fails = false;
  now = 100;
  locked = free;
  owner = codes "w1";
  attempt = λ id. a;
}

abbrev service : RelayService ℕ
service = record { processing = false; world = record { table = table; sent = [] } }

second_claim :
    (claim_batch 1 100 free (codes "w2") (claim_batch 1 100 free (codes "w1") table).0).1
    ≡ mark_claimed (codes "w2") 100 (event (codes "e2") 50) ∷ []
unfolding claim_batch is_due by_age member text_eq
second_claim = refl

claim_batch-exclusive_example : ¬ (◌≡◌ {A = Text} (codes "e1") (codes "e2"))
claim_batch-exclusive_example =
    claim_batch-exclusive 1 1 100 100 free free (codes "w1") (codes "w2") table
      (mark_claimed (codes "w1") 100 (event (codes "e1") 40))
      (mark_claimed (codes "w2") 100 (event (codes "e2") 50)) ids-Distinct (rw claim_one (inl refl))
      (rw second_claim (inl refl))

process_outbox-passes_over_example :
    Occurs stuck (process_outbox config (cycle fine) service).world.table
process_outbox-passes_over_example =
    process_outbox-passes_over config (cycle fine) service stuck ids-Distinct (inr (inr (inl refl)))
      (λ e. cc)

process_outbox-IsBounded_example :
    All (IsBounded 1) (process_outbox config (cycle down) service).world.table
process_outbox-IsBounded_example =
    process_outbox-IsBounded config (cycle down) service ids-Distinct (ground arith)

nothing_published : IsHonest service.world
nothing_published r h p = absurd (ground arith)

process_outbox-IsHonest_example : IsHonest (process_outbox config (cycle fine) service).world
process_outbox-IsHonest_example =
    process_outbox-IsHonest config (cycle fine) service ids-Distinct nothing_published
