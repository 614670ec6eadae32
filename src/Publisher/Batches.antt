-- ===== src/Publisher/Batches.antt =====
-- The batches of ten, and what the caller learns of them.
use bet_advise.Base.{
  ◌≡◌, refl, sym, ap, ◌⊎◌, inl, inr, ℕ, zero, suc, ◌+◌, ◌*◌, ◌-◌, ◌≤◌, ◌<◌, Bool-cases, false, some,
  List, [], ◌∷◌, ◌++◌, map, All, length, take, drop, ltb, length-take_le, arith,
}
use bet_advise.Base.Exec.{Exec, Exec-cases, ok, throw}
use bet_advise.Base.Text.{Text}
use bet_advise.Publisher.{
  Message, Entry, slice, chunks_from, entries_of, Exchange, send_all, send_chunks, send_entries,
  publish_batch,
}

abbrev pub concat : {A : Type 0} → List (List A) → List A
concat [] = []
concat (c ∷ cs) = c ++ concat cs

-- A batch that SQS takes: not empty, and not above ten entries.
abbrev pub IsBatch : {A : Type 0} → List A → Type 0
IsBatch c = (1 ≤ length c) × (length c ≤ 10)

drop-drop : {A : Type 0} (i j k : ℕ) (xs : List A) → k ≡ i + j → drop j (drop i xs) ≡ drop k xs
drop-drop zero j k xs h = let same : k ≡ j = omega arith in ap (λ m. drop m xs) (sym same)
drop-drop (suc i) zero zero [] h = refl
drop-drop (suc i) (suc j) zero [] h = refl
drop-drop (suc i) zero (suc k) [] h = refl
drop-drop (suc i) (suc j) (suc k) [] h = refl
drop-drop (suc i) j zero (x ∷ xs) h = ground arith
drop-drop (suc i) j (suc k) (x ∷ xs) h = drop-drop i j k xs (omega arith)

take-drop : {A : Type 0} (n : ℕ) (xs : List A) → take n xs ++ drop n xs ≡ xs
take-drop zero xs = refl
take-drop (suc n) [] = refl
take-drop (suc n) (x ∷ xs) = ap (λ ys. x ∷ ys) (take-drop n xs)

drop_all : {A : Type 0} (i : ℕ) (xs : List A) → length xs ≤ i → drop i xs ≡ []
drop_all zero [] h = refl
drop_all zero (x ∷ xs) h = ground arith
drop_all (suc i) [] h = refl
drop_all (suc i) (x ∷ xs) h = drop_all i xs (omega arith)

drop-IsFilled : {A : Type 0} (i : ℕ) (xs : List A) → i < length xs → 1 ≤ length (drop i xs)
drop-IsFilled zero xs h = omega arith
drop-IsFilled (suc i) [] h = omega arith
drop-IsFilled (suc i) (x ∷ xs) h = drop-IsFilled i xs (omega arith)

take-IsBatch : {A : Type 0} (xs : List A) → 1 ≤ length xs → IsBatch (take 10 xs)
take-IsBatch [] h = omega arith
take-IsBatch (x ∷ xs) h = (omega arith, omega (arith, length-take_le 9 xs))

slice-take : {A : Type 0} (i : ℕ) (xs : List A) → slice i (i + 10) xs ≡ take 10 (drop i xs)
slice-take i xs = let ten : i + 10 - i ≡ 10 = omega arith in rw ten refl

-- What the loop comes to from position i.
pub record IsSplit {A : Type 0} (i : ℕ) (xs : List A) (chunks : List (List A)) : Type 0 where
  pub whole : concat chunks ≡ drop i xs
  pub batches : All IsBatch chunks

pub chunks_from-IsSplit :
    {A : Type 0} (rounds i : ℕ) (xs : List A)
    → length xs ≤ i + 10 * rounds
    → (chunks : List (List A)) × (chunks_from rounds i xs ≡ some chunks) × IsSplit i xs chunks
unfolding chunks_from
chunks_from-IsSplit zero i xs h =
    let stop : ltb i (length xs) ≡ false = ground arith in
    ([], rw stop refl, record { whole = sym (drop_all i xs (omega arith)); batches = tt })
chunks_from-IsSplit (suc rounds) i xs h = elim (Bool-cases (ltb i (length xs))) [
  | inr stop ↦
      ([], rw stop refl, record { whole = sym (drop_all i xs (ground arith)); batches = tt })
  | inl more ↦
      let (chunks, e, split) = chunks_from-IsSplit rounds (i + 10) xs (omega arith) in
      let within : i < length xs = ground arith in
      (
        slice i (i + 10) xs ∷ chunks,
        rw more (rw e refl),
        record {
          whole =
              rw (slice-take i xs) (
                rw split.whole (rw (← drop-drop i 10 (i + 10) xs refl) (take-drop 10 (drop i xs))));
          batches = (
            rw (slice-take i xs) (take-IsBatch (drop i xs) (drop-IsFilled i xs within)),
            split.batches,
          );
        },
      )
]

-- SQS answered, whatever entries it reports as failed.
abbrev IsAnswered : {E : Type 0} → Exchange E → Type 0
IsAnswered x = (failed : List Text) × (x.1 ≡ ok failed)

abbrev pub batches : {E : Type 0} → List (Exchange E) → List (List Entry)
batches xs = map (λ x. x.0) xs

-- The call returned, and every chunk was answered; or the command for one of them threw, and the
-- earlier ones were answered.
abbrev IsCompleted :
    {E : Type 0} → List (List Entry) → List (Exchange E) → Exec E (Unit {0}) → Type 0
IsCompleted chunks exchanges result =
    (result ≡ ok tt) × (batches exchanges ≡ chunks) × All IsAnswered exchanges

abbrev IsBroken : {E : Type 0} → List (List Entry) → List (Exchange E) → Exec E (Unit {0}) → Type 0
IsBroken {E = E} chunks exchanges result =
    (e : E) × (sent : List (Exchange E)) × (chunk : List Entry) × (later : List (List Entry))
    × (result ≡ throw e)
    × (exchanges ≡ sent ++ (chunk, throw e) ∷ [])
    × All IsAnswered sent
    × (batches exchanges ++ later ≡ chunks)

abbrev pub IsSent :
    {E : Type 0} → List (List Entry) → List (Exchange E) → Exec E (Unit {0}) → Type 0
IsSent chunks exchanges result =
    IsCompleted chunks exchanges result ⊎ IsBroken chunks exchanges result

pub send_all-IsSent :
    {E : Type 0} (answer : ℕ → List Entry → Exec E (List Text)) (k : ℕ) (chunks : List (List Entry))
    → IsSent chunks (send_all answer k chunks).0 (send_all answer k chunks).1
unfolding send_all
send_all-IsSent answer k [] = inl (refl, refl, tt)
send_all-IsSent answer k (chunk ∷ chunks) = elim (Exec-cases (answer k chunk)) [
  | inl (e, thrown) ↦ rw (thrown, send_all) (inr (e, [], chunk, chunks, refl, refl, tt, refl))
  | inr (failed, done) ↦
      rw (done, send_all)
        (elim (send_all-IsSent answer (suc k) chunks) [
          | inl (result, whole, answered) ↦
              inl (result, ap (λ cs. chunk ∷ cs) whole, ((failed, refl), answered))
          | inr (e, sent, last, later, result, ends, answered, whole) ↦ inr (
            e,
            (chunk, ok failed) ∷ sent,
            last,
            later,
            result,
            ap (λ xs. (chunk, ok failed) ∷ xs) ends,
            ((failed, refl), answered),
            ap (λ cs. chunk ∷ cs) whole,
          )
        ])
]

-- Whatever SQS answers, the loop that splits the entries of a batch is done within as many rounds
-- as there are entries: it cuts them, in order, into batches of one to ten entries, and either each
-- batch is answered and the call returns, or the call throws the exception of one batch after the
-- earlier ones were answered and without sending the later ones.
pub publish_batch-IsSent :
    {Json E : Type 0} (stringify : Json → Exec E Text)
    (answer : ℕ → List Entry → Exec E (List Text)) (messages : List (Message Json))
    (entries : List Entry)
    → entries_of stringify messages ≡ ok entries
    → (chunks : List (List Entry)) × (exchanges : List (Exchange E)) × (result : Exec E (Unit {0}))
      × (publish_batch stringify answer messages ≡ some (exchanges, result))
      × (concat chunks ≡ entries)
      × All IsBatch chunks
      × IsSent chunks exchanges result
unfolding publish_batch entries_of
publish_batch-IsSent stringify answer [] entries h =
    ([], [], ok tt, refl, ground arith, tt, inl (refl, refl, tt))
publish_batch-IsSent stringify answer (m ∷ ms) entries h =
    let (chunks, e, split) = chunks_from-IsSplit (length entries) 0 entries (omega arith) in
    (
      chunks,
      (send_all answer 0 chunks).0,
      (send_all answer 0 chunks).1,
      rw (h, send_entries) (rw (e, send_chunks) refl),
      split.whole,
      split.batches,
      send_all-IsSent answer 0 chunks,
    )
