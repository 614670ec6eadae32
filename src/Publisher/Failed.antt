-- ===== src/Publisher/Failed.antt =====
-- The entries that SQS reports as failed in its answer to a batch.
use bet_advise.Base.{
  ◌≡◌, refl, inl, inr, ap, ℕ, suc, Bool, false, not, length, some, List, [], ◌∷◌, map, All, Occurs,
  filter, arith,
}
use bet_advise.Base.Exec.{Exec, ok}
use bet_advise.Base.Text.{Text, member}
use bet_advise.Base.Keyed.{key-member}
use bet_advise.Publisher.{
  Message, Entry, Exchange, entries_of, send_all, send_chunks, send_entries, publish_batch,
  accepted,
}
use bet_advise.Publisher.Batches.{concat, batches, chunks_from-IsSplit}

filter-none :
    {A : Type 0} (p : A → Bool) (xs : List A)
    → ((x : A) → Occurs x xs → p x ≡ false)
    → filter p xs ≡ []
filter-none p [] h = refl
filter-none p (x ∷ xs) h =
    let no : p x ≡ false = h x (inl refl) in rw no (filter-none p xs (λ y o. h y (inr o)))

abbrev pub ids_of : List Entry → List Text
ids_of chunk = map (λ (x : Entry). x.id) chunk

accepted-none : (E : Type 0) (chunk : List Entry) → accepted {E = E} (chunk, ok (ids_of chunk)) ≡ []
unfolding accepted
accepted-none E chunk =
    filter-none (λ x. not (member x.id (map (λ (y : Entry). y.id) chunk))) chunk
      (λ x o. rw (key-member (λ (y : Entry). y.id) x chunk o) refl)

send_all-rejected :
    {E : Type 0} (answer : ℕ → List Entry → Exec E (List Text)) (k : ℕ) (chunks : List (List Entry))
    → ((k : ℕ) (chunk : List Entry) → answer k chunk ≡ ok (ids_of chunk))
    → ((send_all answer k chunks).1 ≡ ok tt)
      × (batches (send_all answer k chunks).0 ≡ chunks)
      × All (λ x. accepted x ≡ []) (send_all answer k chunks).0
unfolding send_all
send_all-rejected answer k [] rejects = (refl, refl, tt)
send_all-rejected answer k (chunk ∷ chunks) rejects =
    let (result, whole, none_left) = send_all-rejected answer (suc k) chunks rejects in
    rw (rejects k chunk, send_all)
      (result, ap (λ cs. chunk ∷ cs) whole, (accepted-none _ chunk, none_left))

-- When SQS answers each batch with the report that every entry of it failed, the call returns like
-- one that succeeded: it sends all entries, none is accepted, and no exception tells the caller.
pub publish_batch-ignores_failed :
    {Json E : Type 0} (stringify : Json → Exec E Text)
    (answer : ℕ → List Entry → Exec E (List Text)) (messages : List (Message Json))
    (entries : List Entry)
    → entries_of stringify messages ≡ ok entries
    → ((k : ℕ) (chunk : List Entry) → answer k chunk ≡ ok (ids_of chunk))
    → (exchanges : List (Exchange E)) × (publish_batch stringify answer messages
        ≡ some (exchanges, ok tt))
      × (concat (batches exchanges) ≡ entries)
      × All (λ x. accepted x ≡ []) exchanges
unfolding publish_batch entries_of
publish_batch-ignores_failed stringify answer [] entries h rejects = ([], refl, ground arith, tt)
publish_batch-ignores_failed stringify answer (m ∷ ms) entries h rejects =
    let (chunks, e, split) = chunks_from-IsSplit (length entries) 0 entries (omega arith) in
    let (result, whole, none_left) = send_all-rejected answer 0 chunks rejects in
    (
      (send_all answer 0 chunks).0,
      rw (h, send_entries)
          (rw (e, send_chunks) (ap (λ r. some ((send_all answer 0 chunks).0, r)) result)),
      rw whole split.whole,
      none_left,
    )
