-- ===== src/Filter/Redact/Clean.antt =====
-- No password and no bearer token is left in what is logged.
use bet_advise.Base.{
  ◌≡◌, ◌≢◌, refl, sym, ap, ◌∙◌, inl, inr, ℕ, ◌+◌, Bool, true, false, Bool-cases, Option, none, some,
  Option-cases, [], ◌∷◌, ◌++◌, All, ◌==◌, ==_iff, arith,
}
use bet_advise.Base.Text.{Text, codes}
use bet_advise.Tenancy.{is_space}
use bet_advise.Filter.Redact.{
  fold, is_word, is_token, after, span, filled, and_then, words_from, password_match, tokens_from,
  spaces_from, bearer_match, postgres_match, replace, redact_secrets, has_match,
}
use bet_advise.Filter.Redact.Replaced.{
  followed, word_next, token_next, space_next, anywhere, IsCovered, IsName, p-IsName, b-IsName,
  word_next-replaced, space_next-replaced, anywhere-replaced,
}

-- The matchers, as probes.
abbrev is_some : {A : Type 0} → Option A → Bool
is_some none = false
is_some (some a) = true

is_some-and_then :
    {A B : Type 0} (g : A → B) (o : Option A) → is_some (and_then o λ a. some (g a)) ≡ is_some o
is_some-and_then g none = refl
is_some-and_then g (some a) = refl

after-followed :
    {A : Type 0} (f : Text → Option A) (base : Text → Bool) (p s : Text)
    → ((s : Text) → is_some (f s) ≡ base s)
    → is_some (and_then (after p s) f) ≡ followed base p s
unfolding after followed
after-followed f base [] s h = h s
after-followed f base (a ∷ p) [] h = refl
after-followed f base (a ∷ p) (c ∷ s) h = elim (Bool-cases (fold c == a)) [
  | inl same ↦ rw same (after-followed f base p s h)
  | inr other ↦ rw other refl
]

words_from-next : (s : Text) → is_some (words_from s) ≡ word_next s
unfolding words_from word_next span filled
words_from-next [] = refl
words_from-next (c ∷ s) = elim (Bool-cases (is_word c)) [
  | inl word ↦ rw (word, span) refl
  | inr other ↦ rw (other, span) refl
]

token_now : Text → Bool
token_now [] = false
token_now (c ∷ s) = is_token c

tokens_from-now : (s : Text) → is_some (tokens_from s) ≡ token_now s
unfolding tokens_from token_now span filled
tokens_from-now [] = refl
tokens_from-now (c ∷ s) = elim (Bool-cases (is_token c)) [
  | inl token ↦ rw (token, span) refl
  | inr other ↦ rw (other, span) refl
]

tokens-span : (s : Text) → is_some (tokens_from (span is_space s).1) ≡ token_next s
unfolding span token_next tokens_from token_now
tokens-span [] = refl
tokens-span (c ∷ s) = elim (Bool-cases (is_space c)) [
  | inl space ↦ rw (space, span) (tokens-span s)
  | inr other ↦ rw (other, span) (tokens_from-now (c ∷ s))
]

spaces_from-next : (s : Text) → is_some (spaces_from s) ≡ space_next s
unfolding spaces_from space_next span filled
spaces_from-next [] = refl
spaces_from-next (c ∷ s) = elim (Bool-cases (is_space c)) [
  | inl space ↦
      rw (space, span) (is_some-and_then _ (tokens_from (span is_space s).1) ∙ tokens-span s)
  | inr other ↦ rw (other, span) refl
]

password_probe : Text → Bool
password_probe s = followed word_next (codes "password=") s

bearer_probe : Text → Bool
bearer_probe s = followed space_next (codes "bearer") s

password_match-probe : (s : Text) → is_some (password_match s) ≡ password_probe s
unfolding password_match password_probe
password_match-probe s =
    after-followed (λ rest. and_then (words_from rest) λ n. some (9 + n)) word_next
      (codes "password=") s
      (λ rest. is_some-and_then (λ n. 9 + n) (words_from rest) ∙ words_from-next rest)

bearer_match-probe : (s : Text) → is_some (bearer_match s) ≡ bearer_probe s
unfolding bearer_match bearer_probe
bearer_match-probe s =
    after-followed (λ rest. and_then (spaces_from rest) λ n. some (6 + n)) space_next
      (codes "bearer") s
      (λ rest. is_some-and_then (λ n. 6 + n) (spaces_from rest) ∙ spaces_from-next rest)

has_match-anywhere :
    (match_at : Text → Option ℕ) (probe : Text → Bool) (s : Text)
    → ((s : Text) → is_some (match_at s) ≡ probe s)
    → has_match match_at s ≡ anywhere probe s
unfolding has_match anywhere
has_match-anywhere match_at probe [] h = refl
has_match-anywhere match_at probe (c ∷ s) h = elim (Option-cases (match_at (c ∷ s))) [
  | inl missed ↦
      rw (missed, has_match) (rw (← h (c ∷ s)) (rw missed (has_match-anywhere match_at probe s h)))
  | inr (n, hit) ↦ rw (hit, has_match) (rw (← h (c ∷ s)) (rw hit refl))
]

-- The probe of a pattern fails where the pattern does not match.
own-IsCovered :
    (match_at : Text → Option ℕ) (probe : Text → Bool) (s : Text)
    → ((s : Text) → is_some (match_at s) ≡ probe s)
    → IsCovered match_at probe s
unfolding IsCovered
own-IsCovered match_at probe [] h = tt
own-IsCovered match_at probe (c ∷ s) h =
    (λ missed. sym (h (c ∷ s)) ∙ ap is_some missed, own-IsCovered match_at probe s h)

anywhere-IsCovered :
    (match_at : Text → Option ℕ) (probe : Text → Bool) (s : Text)
    → anywhere probe s ≡ false
    → IsCovered match_at probe s
unfolding IsCovered anywhere
anywhere-IsCovered match_at probe [] h = tt
anywhere-IsCovered match_at probe (c ∷ s) h =
    (λ missed. ground arith, anywhere-IsCovered match_at probe s (ground arith))

after-head :
    {A : Type 0} (f : Text → Option A) (a : ℕ) (p : Text) (c : ℕ) (s : Text) (x : A)
    → and_then (after (a ∷ p) (c ∷ s)) f ≡ some x
    → fold c ≡ a
unfolding after
after-head f a p c s x h = elim (Bool-cases (fold c == a)) [
  | inl same ↦ (==_iff (fold c) a).0 same
  | inr other ↦ ground arith
]

-- Each of the three patterns begins with the letter of its replacement.
password_match-head : (c : ℕ) (s : Text) (n : ℕ) → password_match (c ∷ s) ≡ some n → fold c ≡ b'p'
unfolding password_match
password_match-head c s n h = after-head _ b'p' (codes "assword=") c s n h

bearer_match-head : (c : ℕ) (s : Text) (n : ℕ) → bearer_match (c ∷ s) ≡ some n → fold c ≡ b'b'
unfolding bearer_match
bearer_match-head c s n h = after-head _ b'b' (codes "earer") c s n h

postgres_match-head : (c : ℕ) (s : Text) (n : ℕ) → postgres_match (c ∷ s) ≡ some n → fold c ≡ b'p'
unfolding postgres_match
postgres_match-head c s n h = after-head _ b'p' (codes "ostgres://") c s n h

-- A replacement that leaves a probe nowhere.
module _ (match_at : Text → Option ℕ) (b : ℕ) (block : Text)
    (heads : (c : ℕ) (s : Text) (n : ℕ) → match_at (c ∷ s) ≡ some n → fold c ≡ fold b)
    (named : IsName (fold b)) where
  no_password :
      (s : Text)
      → All (λ a. a ≢ fold b) (codes "assword=")
      → ((rest : Text)
          → anywhere password_probe ((b ∷ block) ++ rest) ≡ anywhere password_probe rest)
      → IsCovered match_at password_probe s
      → anywhere password_probe (replace match_at (b ∷ block) s) ≡ false
  unfolding password_probe
  no_password s other clean covered =
      anywhere-replaced match_at b block heads named word_next b'p' (codes "assword=")
        (word_next-replaced match_at b block heads named) other clean 0 s covered

  no_bearer :
      (s : Text)
      → All (λ a. a ≢ fold b) (codes "earer")
      → ((rest : Text) → anywhere bearer_probe ((b ∷ block) ++ rest) ≡ anywhere bearer_probe rest)
      → IsCovered match_at bearer_probe s
      → anywhere bearer_probe (replace match_at (b ∷ block) s) ≡ false
  unfolding bearer_probe
  no_bearer s other clean covered =
      anywhere-replaced match_at b block heads named space_next b'b' (codes "earer")
        (space_next-replaced match_at b block heads named) other clean 0 s covered

redact_secrets-no_password : (s : Text) → anywhere password_probe (redact_secrets s) ≡ false
unfolding redact_secrets password_probe followed anywhere word_next
redact_secrets-no_password s =
    no_password postgres_match b'p' (codes "ostgres://[REDACTED]@") postgres_match-head p-IsName _
      (omega arith) (λ rest. refl)
      (anywhere-IsCovered postgres_match password_probe _ (
        no_password password_match b'p' (codes "assword=[REDACTED]") password_match-head p-IsName _
          (omega arith) (λ rest. refl)
          (own-IsCovered password_match password_probe _ password_match-probe)))

redact_secrets-no_bearer : (s : Text) → anywhere bearer_probe (redact_secrets s) ≡ false
unfolding redact_secrets bearer_probe followed anywhere space_next token_next
redact_secrets-no_bearer s =
    no_bearer postgres_match b'p' (codes "ostgres://[REDACTED]@") postgres_match-head p-IsName _
      (omega arith) (λ rest. refl)
      (anywhere-IsCovered postgres_match bearer_probe _ (
        no_bearer password_match b'p' (codes "assword=[REDACTED]") password_match-head p-IsName _
          (omega arith) (λ rest. refl)
          (anywhere-IsCovered password_match bearer_probe _ (
            no_bearer bearer_match b'B' (codes "earer [REDACTED]") bearer_match-head b-IsName s
              (omega arith) (λ rest. refl)
              (own-IsCovered bearer_match bearer_probe s bearer_match-probe)))))

-- After the redaction, neither the pattern of a password nor that of a bearer token matches
-- anywhere in the text.
pub redact_secrets-IsClean :
    (s : Text)
    → (has_match password_match (redact_secrets s) ≡ false)
      × (has_match bearer_match (redact_secrets s) ≡ false)
redact_secrets-IsClean s = (
  has_match-anywhere password_match password_probe _ password_match-probe
      ∙ redact_secrets-no_password s,
  has_match-anywhere bearer_match bearer_probe _ bearer_match-probe ∙ redact_secrets-no_bearer s,
)
