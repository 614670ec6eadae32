-- ===== src/Outbox/Relay/Retry.antt =====
-- Retries: the backoff, and the bound on the attempts.
use mathlib.Core.Path.{subst}
use native.Mathlib.Nat.{pow-suc}
use bet_advise.Base.{
  ℕ, zero, suc, ◌+◌, ◌^◌, ◌<◌, ◌≤◌, ◌≡◌, sym, ◌⊎◌, Bool, [], ◌∷◌, map, Occurs, All, arith,
  Bool-cases, inl, inr,
}
use bet_advise.Base.Keyed.{All-Occurs, Occurs-All}
use bet_advise.Base.Text.{Text, text_eq, Distinct}
use bet_advise.Outbox.{pending, claimed, failed, OutboxEvent, Table}
use bet_advise.Outbox.Claim.{claim_batch, update_where, mark_claimed}
use bet_advise.Outbox.Claim.Laws.{id_of, claim_batch-Occurs, claim_batch-IsDue}
use bet_advise.Outbox.Relay.{
  RelayConfig, RelayError, Attempt, Cycle, RelayService, backoff_ms, mark_attempt, mark_published,
  process_outbox,
}
use bet_advise.Outbox.Relay.Frame.{Marked, relay_event-Marked, process_outbox-keeps}

pow_pos : (k : ℕ) → 1 ≤ 2 ^ k
pow_pos zero = omega arith
pow_pos (suc k) = rw pow-suc (omega (arith, pow_pos k))

-- The delay after the n-th failed attempt, n at least 1, is the jitter above something from four
-- seconds to a minute, and does not shrink from one attempt to the next.
pub backoff_ms_bounds :
    (n jitter : ℕ)
    → (4000 + jitter ≤ backoff_ms (suc n) jitter)
      × (backoff_ms (suc n) jitter ≤ 60000 + jitter)
      × (backoff_ms (suc n) jitter ≤ backoff_ms (suc (suc n)) jitter)
unfolding backoff_ms
backoff_ms_bounds n jitter = rw (pow-suc) (omega (arith, pow_pos n, pow-suc 2 (suc n)))

-- The account of a row's failed attempts: at most the maximum; fewer while the event is pending or
-- claimed; the maximum when it has failed for good.
pub record IsBounded {Json : Type 0} (max_attempts : ℕ) (r : OutboxEvent Json) : Type 0 where
  pub capped : r.attempt_count ≤ max_attempts
  pub live : (r.status ≡ pending) ⊎ (r.status ≡ claimed) → r.attempt_count < max_attempts
  pub exhausted : r.status ≡ failed → r.attempt_count ≡ max_attempts

module _ {Json : Type 0} where
  All-update_where :
      (P : OutboxEvent Json → Type 0) (test : OutboxEvent Json → Bool)
      (f : OutboxEvent Json → OutboxEvent Json) (t : Table Json)
      → ((r : OutboxEvent Json) → P r → P (f r))
      → All P t
      → All P (update_where test f t)
  unfolding update_where
  All-update_where P test f [] keep h = tt
  All-update_where P test f (r ∷ t) keep (p, h) = elim (Bool-cases (test r)) [
    | inl hit ↦ rw hit (keep r p, All-update_where P test f t keep h)
    | inr miss ↦ rw miss (p, All-update_where P test f t keep h)
  ]

  mark_attempt-IsBounded :
      (max_attempts : ℕ) (e r : OutboxEvent Json) (error : RelayError) (a : Attempt)
      → e.attempt_count < max_attempts
      → IsBounded max_attempts (mark_attempt max_attempts e error a r)
  unfolding mark_attempt
  mark_attempt-IsBounded max_attempts e r error a h = ground arith

  Marked-IsBounded :
      (c : RelayConfig) (a : Attempt) (e : OutboxEvent Json) {t u : Table Json}
      → Marked c a e t u
      → e.attempt_count < c.max_attempts
      → All (IsBounded c.max_attempts) t
      → All (IsBounded c.max_attempts) u
  Marked-IsBounded c a e Marked.untouched lt h = h
  Marked-IsBounded c a e {t} Marked.delivered lt h =
      All-update_where (IsBounded c.max_attempts) (λ r. text_eq r.id e.id) (mark_published a.now) t
        (λ r b. ground arith) h
  Marked-IsBounded c a e {t} (Marked.counted error) lt h =
      All-update_where (IsBounded c.max_attempts) (λ r. text_eq r.id e.id)
        (mark_attempt c.max_attempts e error a) t
        (λ r b. mark_attempt-IsBounded c.max_attempts e r error a lt) h

  claim_batch-IsBounded :
      (max_attempts size now : ℕ) (locked : Text → Bool) (owner : Text) (t : Table Json)
      → Distinct (map id_of t)
      → All (IsBounded max_attempts) t
      → All (IsBounded max_attempts) (claim_batch size now locked owner t).0
  claim_batch-IsBounded max_attempts size now locked owner t d h =
      All-Occurs (IsBounded max_attempts) _ (λ x inside.
        elim (claim_batch-Occurs size now locked owner t x d inside) [
          | inl before ↦ Occurs-All (IsBounded max_attempts) x t h before
          | inr (r, there, due, marked) ↦
              let b = Occurs-All (IsBounded max_attempts) r t h there in
              subst (IsBounded max_attempts) (sym marked) (claimed_bounded r b due.0)
        ])
    where
      claimed_bounded :
          (r : OutboxEvent Json)
          → IsBounded max_attempts r
          → r.status ≡ pending
          → IsBounded max_attempts (mark_claimed owner now r)
      claimed_bounded r b p = ground arith

  event_live :
      (max_attempts size now : ℕ) (locked : Text → Bool) (owner : Text) (t : Table Json)
      (e : OutboxEvent Json)
      → Distinct (map id_of t)
      → All (IsBounded max_attempts) t
      → Occurs e (claim_batch size now locked owner t).1
      → e.attempt_count < max_attempts
  event_live max_attempts size now locked owner t e d h taken =
      let (_, (r, there, due, marked)) = claim_batch-IsDue size now locked owner t e d taken in
      let b = Occurs-All (IsBounded max_attempts) r t h there in
      subst (λ (x : OutboxEvent Json). x.attempt_count < max_attempts) (sym marked)
        (b.live (inl due.0))

  -- Whatever the queue and the database answer, a cycle keeps the account of every row: no event is
  -- tried more often than the configured maximum, and it is FAILED only when that is used up.
  pub process_outbox-IsBounded :
      (c : RelayConfig) (y : Cycle) (s : RelayService Json)
      → Distinct (map id_of s.world.table)
      → All (IsBounded c.max_attempts) s.world.table
      → All (IsBounded c.max_attempts) (process_outbox c y s).world.table
  process_outbox-IsBounded c y s d h =
      process_outbox-keeps (λ w. All (IsBounded c.max_attempts) w.table) c y s
        (claim_batch-IsBounded c.max_attempts c.batch_size y.now y.locked y.owner s.world.table d h)
        (λ e taken w b.
          Marked-IsBounded c (y.attempt e.id) e (relay_event-Marked c (y.attempt e.id) e w)
            (event_live c.max_attempts c.batch_size y.now y.locked y.owner s.world.table e d h
              taken)
            b)
        h
