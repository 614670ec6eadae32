-- ===== src/Publisher.antt =====
-- The publisher of messages: src/shared/infrastructure/queue/sqs-message-queue.adapter.ts. What
-- `JSON.stringify` and SQS answer is an argument; an exception is logged and thrown on.
pub mod Batches
pub mod Failed
use bet_advise.Base.{
  ℕ, zero, suc, ◌+◌, ◌-◌, Bool, true, false, Option, none, some, List, [], ◌∷◌, length, take, drop,
  filter, not, ltb, if◌then◌else◌,
}
use bet_advise.Base.Exec.{Exec, ok, throw, ◌>>=◌}
use bet_advise.Base.Text.{Text, member}

-- The attributes of a message: the entries of the object, `none` for `null` and `undefined`.
abbrev pub Attributes : Type 0
Attributes = List (Text × Option Text)

-- A body is sent as it is when it is a text.
pub data Body (Json : Type 0) : Type 0 where
  text : Text → Body Json
  json : Json → Body Json

pub record Message (Json : Type 0) : Type 0 where
  pub id : Text
  pub body : Body Json
  pub attributes : Option Attributes

-- An entry of a batch: `Id`, `MessageBody` and the values of `MessageAttributes`.
pub record Entry : Type 0 where
  pub id : Text
  pub message_body : Text
  pub message_attributes : List (Text × Text)

-- The loop over `Object.entries`.
present : Attributes → List (Text × Text)
present [] = []
present ((key, none) ∷ rest) = present rest
present ((key, some val) ∷ rest) = (key, val) ∷ present rest

unfoldable pub attributes_of : Option Attributes → List (Text × Text)
unfolding present
attributes_of none = []
attributes_of (some attributes) = present attributes

-- `entries.slice(from, to)`
abbrev pub slice : {A : Type 0} → ℕ → ℕ → List A → List A
slice from to entries = take (to - from) (drop from entries)

-- `for (let i = from; i < entries.length; i += 10) chunks.push(entries.slice(i, i + 10));`, which
-- has no result if it needs more rounds than it is given.
unfoldable pub chunks_from : {A : Type 0} → ℕ → ℕ → List A → Option (List (List A))
chunks_from zero i entries = if ltb i (length entries) then none else some []
chunks_from (suc rounds) i entries =
    let later = chunks_from rounds (i + 10) entries in
    if ltb i (length entries)
    then elim later [ none ↦ none | some chunks ↦ some (slice i (i + 10) entries ∷ chunks) ]
    else some []

-- What goes between the publisher and SQS: a batch, and the exception or the ids of its entries
-- that SQS reports as `Failed`.
abbrev pub Exchange : Type 0 → Type 0
Exchange E = List Entry × Exec E (List Text)

module _ {E : Type 0} where
  -- The loop over the chunks; `answer k` is what SQS answers to the k-th command. The list of the
  -- failed ids is not read.
  unfoldable pub send_all :
      (ℕ → List Entry → Exec E (List Text))
      → ℕ
      → List (List Entry)
      → List (Exchange E) × Exec E (Unit {0})
  send_all answer k [] = ([], ok tt)
  send_all answer k (chunk ∷ chunks) =
      let (later, result) = send_all answer (suc k) chunks in
      elim (answer k chunk) [
        | throw e ↦ ((chunk, throw e) ∷ [], throw e)
        | ok failed ↦ ((chunk, ok failed) ∷ later, result)
      ]

  send_chunks :
      (ℕ → List Entry → Exec E (List Text))
      → Option (List (List Entry))
      → Option (List (Exchange E) × Exec E (Unit {0}))
  unfolding send_all
  send_chunks answer none = none
  send_chunks answer (some chunks) = some (send_all answer 0 chunks)

module _ {Json E : Type 0} (stringify : Json → Exec E Text) where
  unfoldable pub body_string : Body Json → Exec E Text
  body_string (text t) = ok t
  body_string (json j) = stringify j

  -- `publish`: the one command that is sent, if any, with what SQS answers to it.
  unfoldable pub publish :
      (Text → List (Text × Text) → Exec E (Unit {0}))
      → Body Json
      → Option Attributes
      → Exec E (Unit {0})
  unfolding body_string attributes_of
  publish send body attributes = do t ← body_string body; send t (attributes_of attributes)

  -- The entries of a batch; the first body that cannot be printed throws.
  unfoldable pub entries_of : List (Message Json) → Exec E (List Entry)
  unfolding body_string attributes_of
  entries_of [] = ok []
  entries_of (m ∷ ms) = do
    t ← body_string m.body
    rest ← entries_of ms
    ok (
        record { id = m.id; message_body = t; message_attributes = attributes_of m.attributes }
        ∷ rest)

  send_entries :
      (ℕ → List Entry → Exec E (List Text))
      → Exec E (List Entry)
      → Option (List (Exchange E) × Exec E (Unit {0}))
  unfolding send_chunks chunks_from
  send_entries answer (throw e) = some ([], throw e)
  send_entries answer (ok entries) = send_chunks answer (chunks_from (length entries) 0 entries)

  -- `publishBatch`: what was exchanged with SQS, and the result; `none` if the loop that splits the
  -- entries is not done after as many rounds as there are entries.
  unfoldable pub publish_batch :
      (ℕ → List Entry → Exec E (List Text))
      → List (Message Json)
      → Option (List (Exchange E) × Exec E (Unit {0}))
  unfolding send_entries entries_of
  publish_batch answer [] = some ([], ok tt)
  publish_batch answer (m ∷ ms) = send_entries answer (entries_of (m ∷ ms))

-- The entries of an exchange that SQS has accepted, which the code never computes: those that its
-- answer does not list in `Failed`.
unfoldable pub accepted : {E : Type 0} → Exchange E → List Entry
accepted (chunk, throw e) = []
accepted (chunk, ok failed) = filter (λ entry. not (member entry.id failed)) chunk
