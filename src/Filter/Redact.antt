-- ===== src/Filter/Redact.antt =====
-- The redaction of secrets in the log: `redactSecrets`, with its regular expressions spelled out.
pub mod Replaced
pub mod Clean
use bet_advise.Base.{
  ℕ, zero, suc, ◌+◌, ◌-◌, Bool, true, false, ◌&&◌, ◌||◌, Option, none, some, List, [], ◌∷◌, ◌++◌,
  leb, ◌==◌, not, if◌then◌else◌,
}
use bet_advise.Base.Text.{Text, codes}
use bet_advise.Tenancy.{is_space}

-- The flag `i` on ASCII.
abbrev pub fold : ℕ → ℕ
fold c = if leb b'A' c && leb c b'Z' then c + 32 else c

abbrev pub is_letter : ℕ → Bool
is_letter c = leb b'a' (fold c) && leb (fold c) b'z'

abbrev pub is_digit : ℕ → Bool
is_digit c = leb b'0' c && leb c b'9'

-- `\w`
abbrev pub is_word : ℕ → Bool
is_word c = is_letter c || is_digit c || c == b'_'

-- `[a-zA-Z0-9\-._~+/]`
abbrev pub is_token : ℕ → Bool
is_token c =
    is_letter c
    || is_digit c
    || c == b'-'
    || c == b'.'
    || c == b'_'
    || c == b'~'
    || c == b'+'
    || c == b'/'

-- The rest of a text after a literal, whatever its case.
unfoldable pub after : Text → Text → Option Text
after [] s = some s
after (a ∷ p) [] = none
after (a ∷ p) (c ∷ s) = let rest = after p s in if fold c == a then rest else none

-- The length of the longest run, and the text after it.
unfoldable pub span : (ℕ → Bool) → Text → ℕ × Text
span p [] = (0, [])
span p (c ∷ s) = let (n, rest) = span p s in if p c then (suc n, rest) else (0, c ∷ s)

-- `+` after a run.
filled : ℕ × Text → Option (ℕ × Text)
filled (zero, rest) = none
filled (suc n, rest) = some (suc n, rest)

-- A literal, then what follows it; the length of the match.
abbrev pub and_then : {A B : Type 0} → Option A → (A → Option B) → Option B
and_then none f = none
and_then (some a) f = f a

words_from : Text → Option ℕ
unfolding span filled
words_from s = and_then (filled (span is_word s)) λ m. some m.0

-- `/password=\w+/`
unfoldable pub password_match : Text → Option ℕ
unfolding words_from after
password_match s =
    and_then (after (codes "password=") s) λ rest. and_then (words_from rest) λ n. some (9 + n)

tokens_from : Text → Option ℕ
unfolding span filled
tokens_from s = and_then (filled (span is_token s)) λ m. some (m.0 + (span (λ c. c == b'=') m.1).0)

spaces_from : Text → Option ℕ
unfolding span filled tokens_from
spaces_from s =
    and_then (filled (span is_space s)) λ m. and_then (tokens_from m.1) λ n. some (m.0 + n)

-- `/Bearer\s+[a-zA-Z0-9\-._~+/]+=*/`
unfoldable pub bearer_match : Text → Option ℕ
unfolding spaces_from after
bearer_match s =
    and_then (after (codes "bearer") s) λ rest. and_then (spaces_from rest) λ n. some (6 + n)

at_sign_from : ℕ × Text → Option ℕ
at_sign_from (n, []) = none
at_sign_from (n, c ∷ s) = if c == b'@' then some (n + 1) else none

-- `/postgres:\/\/[^@]+@/`
unfoldable pub postgres_match : Text → Option ℕ
unfolding span filled at_sign_from after
postgres_match s = and_then (after (codes "postgres://") s) λ rest.
    and_then (filled (span (λ c. not (c == b'@')) rest))
      λ m. and_then (at_sign_from m) λ n. some (11 + n)

-- `replace` with the flag `g`: the argument counts the units of a match that are still to be
-- skipped.
unfoldable pub replace_from : (Text → Option ℕ) → Text → ℕ → Text → Text
replace_from match_at replacement n [] = []
replace_from match_at replacement (suc n) (c ∷ s) = replace_from match_at replacement n s
replace_from match_at replacement zero (c ∷ s) = elim (match_at (c ∷ s)) [
  | none ↦ c ∷ replace_from match_at replacement zero s
  | some len ↦ replacement ++ replace_from match_at replacement (len - 1) s
]

abbrev pub replace : (Text → Option ℕ) → Text → Text → Text
replace match_at replacement s = replace_from match_at replacement 0 s

-- `redactSecrets`
unfoldable pub redact_secrets : Text → Text
redact_secrets s = replace postgres_match (codes "postgres://[REDACTED]@") (
    replace password_match (codes "password=[REDACTED]")
      (replace bearer_match (codes "Bearer [REDACTED]") s))

-- A match stands somewhere in the text.
unfoldable pub has_match : (Text → Option ℕ) → Text → Bool
has_match match_at [] = false
has_match match_at (c ∷ s) =
    let later = has_match match_at s in elim (match_at (c ∷ s)) [ none ↦ later | some _ ↦ true ]
