-- ===== src/Outbox/Relay/Frame.antt =====
-- What a cycle of the relay leaves as it is.
use bet_advise.Base.{
  ◌≡◌, refl, sym, ◌∙◌, true, false, Option, none, some, [], ◌∷◌, ◌++◌, map, Occurs, arith, inl, inr,
  if◌then◌else◌,
}
use bet_advise.Base.Text.{Text, text_eq, text_eq_iff, Distinct}
use bet_advise.Outbox.{pending, OutboxEvent, Table}
use bet_advise.Outbox.Claim.{claim_batch, update_where}
use bet_advise.Outbox.Claim.Laws.{
  id_of, map-update_where, map-claim_batch, update_where-Occurs, claim_batch-passes_over,
}
use bet_advise.Outbox.Relay.{
  RelayConfig, Attempt, World, Cycle, RelayService, RelayError, message_of, record_failure,
  relay_with, relay_event, relay_all, run_cycle, process_outbox, mark_published, mark_attempt,
}

module _ {Json : Type 0} where
  -- What each relayed event keeps, the loop keeps.
  pub relay_all-keeps {κ} :
      (P : World Json → Type κ) (c : RelayConfig) (attempt : Text → Attempt) (events : Table Json)
      → ((e : OutboxEvent Json)
          → Occurs e events
          → (w : World Json) → P w
          → P (relay_event c (attempt e.id) e w).0)
      → (w : World Json) → P w
      → P (relay_all c attempt events w)
  unfolding relay_all
  relay_all-keeps P c attempt [] keep w h = h
  relay_all-keeps P c attempt (e ∷ events) keep w h =
      let next = keep e (inl refl) w h in
      let (w', threw) = relay_event c (attempt e.id) e w in
      elim threw as (λ b. P (if b then w' else relay_all c attempt events w')) [
        | true ↦ next
        | false ↦ relay_all-keeps P c attempt events (λ f inside. keep f (inr inside)) w' next
      ]

  -- What the claim and each relayed event keep, a cycle keeps.
  pub process_outbox-keeps {κ} :
      (P : World Json → Type κ) (c : RelayConfig) (y : Cycle) (s : RelayService Json)
      → let (t', events) = claim_batch c.batch_size y.now y.locked y.owner s.world.table in
        P (record { table = t'; sent = s.world.sent })
        → ((e : OutboxEvent Json)
            → Occurs e events
            → (w : World Json) → P w
            → P (relay_event c (y.attempt e.id) e w).0)
        → P s.world
        → P (process_outbox c y s).world
  unfolding process_outbox
  process_outbox-keeps P c y s after keep h =
      elim s.processing
        as (λ b.
          P (if b then s else record { processing = false; world = run_cycle c y s.world }).world) [
            | true ↦ h
            | false ↦
                elim y.claim_fails
                  as (λ b. P (
                    if b
                    then s.world
                    else relay_all c y.attempt
                        (claim_batch c.batch_size y.now y.locked y.owner s.world.table).1
                        (record {
                          table = (claim_batch c.batch_size y.now y.locked y.owner s.world.table).0;
                          sent = s.world.sent;
                        }))) [ true ↦ h | false ↦ relay_all-keeps P c y.attempt _ keep _ after ]
          ]

  -- The table after `relayEvent`: as it was, or with the event's row marked one way or the other.
  pub data Marked (c : RelayConfig) (a : Attempt) (e : OutboxEvent Json) (t : Table Json)
      : Table Json → Type 0 where
    untouched : Marked c a e t t
    delivered : Marked c a e t (update_where (λ r. text_eq r.id e.id) (mark_published a.now) t)
    counted :
        (error : RelayError)
        → Marked c a e t
            (update_where (λ r. text_eq r.id e.id) (mark_attempt c.max_attempts e error a) t)

  record_failure-Marked :
      (c : RelayConfig) (a : Attempt) (e : OutboxEvent Json) (w : World Json) (error : RelayError)
      (recording : Option RelayError)
      → Marked c a e w.table (record_failure c a e w error recording).0.table
  unfolding record_failure
  record_failure-Marked c a e w error none = counted error
  record_failure-Marked c a e w error (some _) = untouched

  relay_with-Marked :
      (c : RelayConfig) (a : Attempt) (e : OutboxEvent Json) (w : World Json)
      (publishing marking : Option RelayError)
      → Marked c a e w.table (relay_with c a e w publishing marking).0.table
  unfolding relay_with
  relay_with-Marked c a e w (some error) marking = record_failure-Marked c a e w error a.recording
  relay_with-Marked c a e w none none = delivered
  relay_with-Marked c a e w none (some error) =
      record_failure-Marked c a e (record w { sent = w.sent ++ message_of e ∷ [] }) error
        a.recording

  pub relay_event-Marked :
      (c : RelayConfig) (a : Attempt) (e : OutboxEvent Json) (w : World Json)
      → Marked c a e w.table (relay_event c a e w).0.table
  unfolding relay_event
  relay_event-Marked c a e w = relay_with-Marked c a e w a.publishing a.marking

  Marked-ids :
      {c : RelayConfig} {a : Attempt} {e : OutboxEvent Json} {t u : Table Json}
      → Marked c a e t u
      → map id_of u ≡ map id_of t
  unfolding mark_attempt
  Marked-ids untouched = refl
  Marked-ids {a} {e} {t} delivered =
      map-update_where (λ r. text_eq r.id e.id) (mark_published a.now) t (λ r. refl)
  Marked-ids {c} {a} {e} {t} (counted error) =
      map-update_where (λ r. text_eq r.id e.id) (mark_attempt c.max_attempts e error a) t
        (λ r. refl)

  Marked-Occurs :
      {c : RelayConfig} {a : Attempt} {e : OutboxEvent Json} {t u : Table Json}
      (r : OutboxEvent Json)
      → Marked c a e t u
      → ¬ (r.id ≡ e.id)
      → Occurs r t
      → Occurs r u
  Marked-Occurs r untouched other h = h
  Marked-Occurs {a} {e} {t} r delivered other h =
      update_where-Occurs (λ s. text_eq s.id e.id) (mark_published a.now) r t
        (ground (arith, text_eq_iff r.id e.id)) h
  Marked-Occurs {c} {a} {e} {t} r (counted error) other h =
      update_where-Occurs (λ s. text_eq s.id e.id) (mark_attempt c.max_attempts e error a) r t
        (ground (arith, text_eq_iff r.id e.id)) h

  -- No cycle loses an event, adds one, or changes its place: the ids of the table stay.
  pub map-process_outbox :
      (c : RelayConfig) (y : Cycle) (s : RelayService Json)
      → map id_of (process_outbox c y s).world.table ≡ map id_of s.world.table
  map-process_outbox c y s =
      process_outbox-keeps (λ w. map id_of w.table ≡ map id_of s.world.table) c y s
        (map-claim_batch c.batch_size y.now y.locked y.owner s.world.table)
        (λ e inside w h. Marked-ids (relay_event-Marked c (y.attempt e.id) e w) ∙ h) refl

  -- A row that is not pending when a cycle begins is left exactly as it is by the whole cycle. So
  -- an event whose relay broke off stays CLAIMED: no cycle, at whatever time, takes it up again.
  pub process_outbox-passes_over :
      (c : RelayConfig) (y : Cycle) (s : RelayService Json) (r : OutboxEvent Json)
      → Distinct (map id_of s.world.table)
      → Occurs r s.world.table
      → ¬ (r.status ≡ pending)
      → Occurs r (process_outbox c y s).world.table
  process_outbox-passes_over c y s r d inside busy =
      let (stays, others) =
        claim_batch-passes_over c.batch_size y.now y.locked y.owner s.world.table r d inside busy in
      process_outbox-keeps (λ w. Occurs r w.table) c y s stays
        (λ e taken w h.
          Marked-Occurs r (relay_event-Marked c (y.attempt e.id) e w)
            (λ same. others e taken (sym same)) h)
        inside
