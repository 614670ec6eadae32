-- ===== src/Outbox/Claim.antt =====
-- The claim of a batch: the transaction in `processOutbox` of
-- src/outbox/application/outbox-relay.service.ts. Its SQL is written out over the rows.
pub mod Laws
use bet_advise.Base.{
  ℕ, ◌+◌, Bool, true, false, not, ◌&&◌, some, List, [], ◌∷◌, map, filter, take, leb, if◌then◌else◌,
}
use bet_advise.Base.Text.{Text, member}
use bet_advise.Outbox.{EventStatus, pending, claimed, OutboxEvent, Table}

abbrev is_pending : EventStatus → Bool
is_pending pending = true
is_pending _ = false

module _ {Json : Type 0} where
  -- The `WHERE` of the claim; `locked` are the rows that another transaction holds, which
  -- `SKIP LOCKED` passes over.
  unfoldable pub is_due : ℕ → (Text → Bool) → OutboxEvent Json → Bool
  is_due now locked r = is_pending r.status && leb r.next_attempt_at now && not (locked r.id)

  -- `ORDER BY created_at ASC`
  insert_by_age : OutboxEvent Json → Table Json → Table Json
  insert_by_age r [] = r ∷ []
  insert_by_age r (s ∷ rows) =
      if leb r.created_at s.created_at then r ∷ s ∷ rows else s ∷ insert_by_age r rows

  unfoldable pub by_age : Table Json → Table Json
  unfolding insert_by_age
  by_age [] = []
  by_age (r ∷ rows) = insert_by_age r (by_age rows)

  -- The ids of the `SELECT`.
  pub due_ids : ℕ → ℕ → (Text → Bool) → Table Json → List Text
  due_ids batch_size now locked table =
      map (λ r. r.id) (take batch_size (by_age (filter (is_due now locked) table)))

  -- The `UPDATE` of a row that is claimed, with a lease of one minute.
  abbrev pub mark_claimed : Text → ℕ → OutboxEvent Json → OutboxEvent Json
  mark_claimed owner now r = record r {
    status = claimed;
    claim_owner = some owner;
    claimed_at = some now;
    lease_until = some (now + 60000);
    updated_at = now;
  }

  unfoldable pub update_where :
      (OutboxEvent Json → Bool) → (OutboxEvent Json → OutboxEvent Json) → Table Json → Table Json
  update_where test f table = map (λ r. if test r then f r else r) table

  -- The transaction: the table after it, and the claimed rows.
  unfoldable pub claim_batch : ℕ → ℕ → (Text → Bool) → Text → Table Json → Table Json × Table Json
  unfolding due_ids update_where
  claim_batch batch_size now locked owner table =
      let ids = due_ids batch_size now locked table in
      let table' = update_where (λ r. member r.id ids) (mark_claimed owner now) table in
      (table', filter (λ r. member r.id ids) table')
