-- ===== src/Outbox/Relay/Delivery.antt =====
-- What was published was sent, and what can be sent is published.
use mathlib.Core.Path.{subst}
use bet_advise.Base.{
  ℕ, ◌≡◌, refl, sym, ap, ◌∙◌, ◌⊎◌, Bool, true, false, Option, none, some, [], ◌∷◌, ◌++◌, map,
  Occurs, All, arith, Bool-cases, inl, inr, if◌then◌else◌,
}
use bet_advise.Base.Keyed.{map-Occurs, Occurs-All, Occurs-append_left, Occurs-append_last}
use bet_advise.Base.Text.{Text, text_eq, text_eq_iff, Distinct}
use bet_advise.Outbox.{published, OutboxEvent, Table}
use bet_advise.Outbox.Claim.{claim_batch, update_where, mark_claimed}
use bet_advise.Outbox.Claim.Laws.{id_of, claim_batch-Occurs}
use bet_advise.Outbox.Relay.{
  RelayConfig, RelayError, Attempt, OutboxMessage, World, Cycle, RelayService, message_of,
  mark_attempt, mark_published, record_failure, relay_with, relay_event, relay_all, process_outbox,
}
use bet_advise.Outbox.Relay.Frame.{relay_all-keeps, process_outbox-keeps}

module _ {Json : Type 0} where
  update_where-rows :
      (test : OutboxEvent Json → Bool) (f : OutboxEvent Json → OutboxEvent Json) (t : Table Json)
      (x : OutboxEvent Json)
      → Occurs x (update_where test f t)
      → (Occurs x t × (test x ≡ false))
        ⊎ ((r : OutboxEvent Json) × Occurs r t × (test r ≡ true) × (x ≡ f r))
  unfolding update_where
  update_where-rows test f t x h =
      let (r, inside, e) = map-Occurs (λ r. if test r then f r else r) x t h in
      elim (Bool-cases (test r)) [
        | inl hit ↦ inr (r, inside, hit, rw hit at e)
        | inr miss ↦
            let same : x ≡ r = rw miss at e in
            inl (subst (λ y. Occurs y t) (sym same) inside, rw same miss)
      ]

  -- A message with this id is among those that the queue has accepted.
  abbrev pub WasSent : World Json → Text → Type 0
  WasSent w id = (m : OutboxMessage Json) × Occurs m w.sent × (m.event_id ≡ id)

  -- Every event that the table says is published was sent.
  abbrev pub IsHonest : World Json → Type 0
  IsHonest w = (r : OutboxEvent Json) → Occurs r w.table → r.status ≡ published → WasSent w r.id

  record_failure-IsHonest :
      (c : RelayConfig) (a : Attempt) (e : OutboxEvent Json) (w : World Json) (error : RelayError)
      (recording : Option RelayError)
      → IsHonest w
      → IsHonest (record_failure c a e w error recording).0
  unfolding record_failure
  record_failure-IsHonest c a e w error (some _) h x inside p = h x inside p
  record_failure-IsHonest c a e w error none h x inside p =
      elim (update_where-rows (λ r. text_eq r.id e.id) (mark_attempt c.max_attempts e error a)
        w.table x inside) [
          | inl before ↦ h x before.0 p
          | inr (r, there, hit, marked) ↦ absurd (never x r marked p)
        ]
    where
      never :
          (x r : OutboxEvent Json)
          → x ≡ mark_attempt c.max_attempts e error a r
          → x.status ≡ published
          → ⊥
      never x r marked p = unfold mark_attempt in ground arith

  WasSent-append :
      (w : World Json) (m : OutboxMessage Json) (id : Text)
      → WasSent w id
      → WasSent (record w { sent = w.sent ++ m ∷ [] }) id
  WasSent-append w m id (n, there, e) = (n, Occurs-append_left n w.sent (m ∷ []) there, e)

  relay_with-IsHonest :
      (c : RelayConfig) (a : Attempt) (e : OutboxEvent Json) (w : World Json)
      (publishing marking : Option RelayError)
      → IsHonest w
      → IsHonest (relay_with c a e w publishing marking).0
  unfolding relay_with message_of
  relay_with-IsHonest c a e w (some error) marking h x inside p =
      record_failure-IsHonest c a e w error a.recording h x inside p
  relay_with-IsHonest c a e w none (some error) h x inside p =
      record_failure-IsHonest c a e (record w { sent = w.sent ++ message_of e ∷ [] }) error
        a.recording (λ r there q. WasSent-append w (message_of e) r.id (h r there q)) x inside p
  relay_with-IsHonest c a e w none none h x inside p =
      elim (update_where-rows (λ r. text_eq r.id e.id) (mark_published a.now) w.table x inside) [
        | inl before ↦ WasSent-append w (message_of e) x.id (h x before.0 p)
        | inr (r, there, hit, marked) ↦ (
          message_of e,
          Occurs-append_last (message_of e) w.sent,
          sym ((text_eq_iff r.id e.id).0 hit) ∙ sym (ap id_of marked),
        )
      ]

  relay_event-IsHonest :
      (c : RelayConfig) (a : Attempt) (e : OutboxEvent Json) (w : World Json)
      → IsHonest w
      → IsHonest (relay_event c a e w).0
  unfolding relay_event
  relay_event-IsHonest c a e w h = relay_with-IsHonest c a e w a.publishing a.marking h

  claimed_unpublished :
      (owner : Text) (now : ℕ) (x r : OutboxEvent Json)
      → x ≡ mark_claimed owner now r
      → x.status ≡ published
      → ⊥
  claimed_unpublished owner now x r marked p = ground arith

  -- Whatever the queue and the database answer, a cycle keeps the table honest: an event is only
  -- PUBLISHED if a message with its id went to the queue.
  pub process_outbox-IsHonest :
      (c : RelayConfig) (y : Cycle) (s : RelayService Json)
      → Distinct (map id_of s.world.table)
      → IsHonest s.world
      → IsHonest (process_outbox c y s).world
  process_outbox-IsHonest c y s d h =
      process_outbox-keeps IsHonest c y s
        (λ x inside p.
          elim (claim_batch-Occurs c.batch_size y.now y.locked y.owner s.world.table x d inside) [
            | inl before ↦ h x before p
            | inr (r, there, due, marked) ↦ absurd (claimed_unpublished y.owner y.now x r marked p)
          ])
        (λ e taken w b. relay_event-IsHonest c (y.attempt e.id) e w b) h

  -- The event was sent, and every row with its id is marked as published.
  abbrev pub IsDelivered : OutboxEvent Json → World Json → Type 0
  IsDelivered e w =
      Occurs (message_of e) w.sent
      × ((r : OutboxEvent Json) → Occurs r w.table → r.id ≡ e.id → r.status ≡ published)

  -- Neither the queue nor the update after it refuses an event.
  abbrev pub Succeeds : (Text → Attempt) → OutboxEvent Json → Type 0
  Succeeds attempt e = ((attempt e.id).publishing ≡ none) × ((attempt e.id).marking ≡ none)

  relay_with-delivers :
      (c : RelayConfig) (a : Attempt) (e : OutboxEvent Json) (w : World Json)
      → IsDelivered e (relay_with c a e w none none).0 × ((relay_with c a e w none none).1 ≡ false)
  unfolding relay_with
  relay_with-delivers c a e w = (
    (
      Occurs-append_last (message_of e) w.sent,
      λ r inside same.
          elim (update_where-rows (λ s. text_eq s.id e.id) (mark_published a.now) w.table r
            inside) [
              | inl before ↦ absurd (missed r before.1 same)
              | inr (s, there, hit, marked) ↦ ap (λ (x : OutboxEvent Json). x.status) marked
            ],
    ),
    refl,
  )
    where
      missed : (r : OutboxEvent Json) → text_eq r.id e.id ≡ false → r.id ≡ e.id → ⊥
      missed r miss same = ground (arith, text_eq_iff r.id e.id)

  relay_with-keeps_IsDelivered :
      (c : RelayConfig) (a : Attempt) (e f : OutboxEvent Json) (w : World Json)
      → IsDelivered f w
      → IsDelivered f (relay_with c a e w none none).0
  unfolding relay_with
  relay_with-keeps_IsDelivered c a e f w (there, marked) = (
    Occurs-append_left (message_of f) w.sent (message_of e ∷ []) there,
    λ r inside same.
        elim (update_where-rows (λ s. text_eq s.id e.id) (mark_published a.now) w.table r inside) [
          | inl before ↦ marked r before.0 same
          | inr (s, inside', hit, as_published) ↦
              ap (λ (x : OutboxEvent Json). x.status) as_published
        ],
  )

  relay_event-Succeeds :
      (c : RelayConfig) (attempt : Text → Attempt) (e : OutboxEvent Json) (w : World Json)
      → Succeeds attempt e
      → relay_event c (attempt e.id) e w ≡ relay_with c (attempt e.id) e w none none
  unfolding relay_event
  relay_event-Succeeds c attempt e w (p, m) = cc

  relay_all-delivers :
      (c : RelayConfig) (attempt : Text → Attempt) (events : Table Json) (w : World Json)
      (e : OutboxEvent Json)
      → All (Succeeds attempt) events
      → Occurs e events
      → IsDelivered e (relay_all c attempt events w)
  unfolding relay_all
  relay_all-delivers c attempt [] w e ok inside = absurd inside
  relay_all-delivers c attempt (f ∷ events) w e (ok, oks) inside =
      let (delivered, quiet) = relay_with-delivers c (attempt f.id) f w in
      let next = (relay_with c (attempt f.id) f w none none).0 in
      rw (relay_event-Succeeds c attempt f w ok) (
        rw quiet (elim inside [
          | inl here ↦
              subst (λ (x : OutboxEvent Json). IsDelivered x (relay_all c attempt events next))
                (sym here)
                (relay_all-keeps (IsDelivered f) c attempt events
                  (λ g taken v d.
                    subst (λ p. IsDelivered f p.0)
                      (sym (
                        relay_event-Succeeds c attempt g v
                          (Occurs-All (Succeeds attempt) g events oks taken)))
                      (relay_with-keeps_IsDelivered c (attempt g.id) g f v d))
                  next delivered)
          | inr later ↦ relay_all-delivers c attempt events next e oks later
        ]))

  -- If the service is not busy, the claim goes through, and neither the queue nor the update after
  -- it refuses a claimed event, then each claimed event is sent and marked as published.
  pub process_outbox-delivers :
      (c : RelayConfig) (y : Cycle) (s : RelayService Json) (e : OutboxEvent Json)
      → s.processing ≡ false
      → y.claim_fails ≡ false
      → let (t', events) = claim_batch c.batch_size y.now y.locked y.owner s.world.table in
        All (Succeeds y.attempt) events
        → Occurs e events
        → IsDelivered e (process_outbox c y s).world
  unfolding process_outbox
  process_outbox-delivers c y s e idle goes oks inside =
      rw (idle, goes) (relay_all-delivers c y.attempt _ _ e oks inside)
