-- ===== src/Tests/Publisher.antt =====
-- A batch of eleven messages, which is sent in two commands.
use bet_advise.Base.{◌≡◌, refl, ℕ, zero, suc, none, some, List, [], ◌∷◌, map, All}
use bet_advise.Base.Exec.{Exec, ok, throw}
use bet_advise.Base.Text.{Text, codes}
use bet_advise.Publisher.{
  Body, Message, Entry, Exchange, attributes_of, chunks_from, entries_of, publish_batch, accepted,
}
use bet_advise.Publisher.Batches.{concat, batches, IsBatch, IsSent, publish_batch-IsSent}
use bet_advise.Publisher.Failed.{publish_batch-ignores_failed}

abbrev stringify : Text → Exec Text Text
stringify t = if_empty t
  where
    if_empty : Text → Exec Text Text
    if_empty [] = throw (codes "cyclic")
    if_empty (c ∷ s) = ok (c ∷ s)

abbrev message : Message Text
message = record {
  id = codes "e1";
  body = Body.json (codes "{}");
  attributes = some ((codes "tenant", some (codes "t1")) ∷ (codes "trace", none) ∷ []);
}

abbrev entry : Entry
entry = record {
  id = codes "e1";
  message_body = codes "{}";
  message_attributes = (codes "tenant", codes "t1") ∷ [];
}

abbrev times : {A : Type 0} → ℕ → A → List A
times zero x = []
times (suc n) x = x ∷ times n x

printed : entries_of stringify (times 11 message) ≡ ok (times 11 entry)
unfolding entries_of attributes_of
printed = refl

-- The second command throws.
abbrev answer : ℕ → List Entry → Exec Text (List Text)
answer zero chunk = ok []
answer (suc k) chunk = throw (codes "throttled")

two_chunks : chunks_from 11 0 (times 11 entry) ≡ some (times 10 entry ∷ (entry ∷ []) ∷ [])
unfolding chunks_from
two_chunks = refl

publish_batch-IsSent_example :
    (chunks : List (List Entry)) × (exchanges : List (Exchange Text)) × (result : Exec Text
      (Unit {0}))
    × (publish_batch stringify answer (times 11 message) ≡ some (exchanges, result))
    × (concat chunks ≡ times 11 entry)
    × All IsBatch chunks
    × IsSent chunks exchanges result
publish_batch-IsSent_example =
    publish_batch-IsSent stringify answer (times 11 message) (times 11 entry) printed

abbrev reject : ℕ → List Entry → Exec Text (List Text)
reject k chunk = ok (map (λ (x : Entry). x.id) chunk)

publish_batch-ignores_failed_example :
    (exchanges : List (Exchange Text)) × (publish_batch stringify reject (times 11 message)
      ≡ some (exchanges, ok tt))
    × (concat (batches exchanges) ≡ times 11 entry)
    × All (λ x. accepted x ≡ []) exchanges
publish_batch-ignores_failed_example =
    publish_batch-ignores_failed stringify reject (times 11 message) (times 11 entry) printed
      (λ k chunk. refl)
