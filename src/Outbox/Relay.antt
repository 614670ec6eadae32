-- ===== src/Outbox/Relay.antt =====
-- The relay: src/outbox/application/outbox-relay.service.ts. What the queue and the database
-- answer is an argument.
pub mod Frame
pub mod Timer
pub mod Retry
pub mod Delivery
use bet_advise.Base.{
  ℕ, ◌+◌, ◌*◌, ◌^◌, min, Bool, true, false, not, ◌&&◌, Option, none, some, List, [], ◌∷◌, ◌++◌, map,
  filter, take, leb, if◌then◌else◌,
}
use bet_advise.Base.Text.{Text, codes, text_eq, member}
use bet_advise.Outbox.{EventStatus, pending, published, failed, OutboxEvent, Table}
use bet_advise.Outbox.Claim.{claim_batch, update_where}

-- The configuration that the constructor reads.
pub record RelayConfig : Type 0 where
  pub batch_size : ℕ
  pub max_attempts : ℕ
  pub queue_url : Text

-- An error that was thrown: its message (empty if it has none), what `String(error)` prints, and
-- its code.
pub record RelayError : Type 0 where
  pub message : Text
  pub printed : Text
  pub code : Text

-- The message that goes to the queue.
pub record OutboxMessage (Json : Type 0) : Type 0 where
  pub event_id : Text
  pub tenant_id : Text
  pub type : Text
  pub aggregate_type : Text
  pub aggregate_id : Text
  pub payload : Json
  pub payload_checksum : Text
  pub correlation_id : Text
  pub causation_id : Text
  pub occurred_at : ℕ
  pub producer : Text
  pub schema_version : Text

-- What happens around one event: the answer of the queue, that of the update after it, that of
-- the update in the handler (`none` is success), the clock, and the jitter in milliseconds.
pub record Attempt : Type 0 where
  pub publishing : Option RelayError
  pub marking : Option RelayError
  pub recording : Option RelayError
  pub now : ℕ
  pub jitter : ℕ

-- What the relay works on: the table, and the messages that the queue has accepted.
pub record World (Json : Type 0) : Type 0 where
  pub table : Table Json
  pub sent : List (OutboxMessage Json)

-- What a cycle finds: whether the claim's transaction fails, the clock, the rows that others have
-- locked, the name of the owner, and what happens around each event.
pub record Cycle : Type 0 where
  pub claim_fails : Bool
  pub now : ℕ
  pub locked : Text → Bool
  pub owner : Text
  pub attempt : Text → Attempt

pub record RelayService (Json : Type 0) : Type 0 where
  pub processing : Bool
  pub world : World Json

-- `nextAttempt >= this.maxAttempts ? 'FAILED' : 'PENDING'`
abbrev pub next_status : ℕ → ℕ → EventStatus
next_status max_attempts next_attempt = if leb max_attempts next_attempt then failed else pending

-- The exponential backoff, capped at a minute, with the jitter.
unfoldable pub backoff_ms : ℕ → ℕ → ℕ
backoff_ms next_attempt jitter = min 60000 (2000 * 2 ^ next_attempt) + jitter

abbrev non_empty_or : Text → Text → Text
non_empty_or [] d = d
non_empty_or (c ∷ t) d = c ∷ t

module _ {Json : Type 0} where
  unfoldable pub message_of : OutboxEvent Json → OutboxMessage Json
  message_of event = record {
    event_id = event.id;
    tenant_id = event.tenant_id;
    type = event.type;
    aggregate_type = event.aggregate_type;
    aggregate_id = event.aggregate_id;
    payload = event.payload;
    payload_checksum = event.payload_checksum;
    correlation_id = event.correlation_id;
    causation_id = event.causation_id;
    occurred_at = event.created_at;
    producer = codes "bet-advise-backend";
    schema_version = event.schema_version;
  }

  abbrev mark_published : ℕ → OutboxEvent Json → OutboxEvent Json
  mark_published now r = record r { status = published; published_at = some now; updated_at = now }

  -- The update in the handler of a failed attempt; `event` is the row as it was claimed.
  unfoldable pub mark_attempt :
      ℕ → OutboxEvent Json → RelayError → Attempt → OutboxEvent Json → OutboxEvent Json
  mark_attempt max_attempts event error a r = record r {
    attempt_count = event.attempt_count + 1;
    last_error_code = some (non_empty_or error.code (codes "RELAY_ERROR"));
    last_error_summary = some (take 500 (non_empty_or error.message error.printed));
    status = next_status max_attempts (event.attempt_count + 1);
    next_attempt_at = a.now + backoff_ms (event.attempt_count + 1) a.jitter;
    updated_at = a.now;
  }

  -- The `catch` of `relayEvent`: its update goes through (`none`) or throws in its turn. The
  -- Boolean says whether the call threw.
  record_failure :
      RelayConfig
      → Attempt
      → OutboxEvent Json
      → World Json
      → RelayError
      → Option RelayError
      → World Json × Bool
  unfolding update_where
  record_failure c a event w error none = (
    record w {
      table =
          update_where (λ r. text_eq r.id event.id) (mark_attempt c.max_attempts event error a)
            w.table;
    },
    false,
  )
  record_failure c a event w error (some _) = (w, true)

  -- The `try` of `relayEvent`: the answer of the queue, then that of the update.
  relay_with :
      RelayConfig
      → Attempt
      → OutboxEvent Json
      → World Json
      → (publishing marking : Option RelayError) → World Json × Bool
  unfolding record_failure update_where
  relay_with c a event w (some error) marking = record_failure c a event w error a.recording
  relay_with c a event w none none = (
    record {
      table = update_where (λ r. text_eq r.id event.id) (mark_published a.now) w.table;
      sent = w.sent ++ message_of event ∷ [];
    },
    false,
  )
  relay_with c a event w none (some error) =
      record_failure c a event (record w { sent = w.sent ++ message_of event ∷ [] }) error
        a.recording

  -- `relayEvent`: the world after it, and whether it threw.
  unfoldable pub relay_event :
      RelayConfig → Attempt → OutboxEvent Json → World Json → World Json × Bool
  unfolding relay_with
  relay_event c a event w = relay_with c a event w a.publishing a.marking

  -- The loop over the claimed events: an event whose handler throws ends it.
  pub relay_all : RelayConfig → (Text → Attempt) → Table Json → World Json → World Json
  relay_all c attempt [] w = w
  relay_all c attempt (event ∷ events) w =
      let (w', threw) = relay_event c (attempt event.id) event w in
      let rest = relay_all c attempt events w' in if threw then w' else rest

  -- A cycle that is not turned away: the claim, the loop, and `finally`.
  run_cycle : RelayConfig → Cycle → World Json → World Json
  unfolding relay_all claim_batch
  run_cycle c y w =
      if y.claim_fails
      then w
      else let (table, events) = claim_batch c.batch_size y.now y.locked y.owner w.table in
        relay_all c y.attempt events (record w { table = table })

  -- `processOutbox`
  unfoldable pub process_outbox : RelayConfig → Cycle → RelayService Json → RelayService Json
  unfolding run_cycle
  process_outbox c y s =
      if s.processing then s else record { processing = false; world = run_cycle c y s.world }
