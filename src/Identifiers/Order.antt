-- ===== src/Identifiers/Order.antt =====
-- Identifiers sort by their time.
use mathlib.Core.List.{append_assoc}
use native.Mathlib.Nat.{pow-suc}
use bet_advise.Base.{
  ◌≡◌, refl, ◌∙◌, ◌⊎◌, inl, inr, ℕ, zero, suc, ◌/◌, ◌%◌, ◌^◌, ◌<◌, Bool, true, false, [], ◌∷◌, ◌++◌,
  ltb, ◌==◌, if◌then◌else◌, arith,
}
use bet_advise.Base.Text.{Text}
use bet_advise.Identifiers.{digit, Random, generate_uuid_v7}
use bet_advise.Identifiers.Hex.{fixed}
use bet_advise.Identifiers.Layout.{generate_uuid_v7-joined}

-- `<` on strings.
unfoldable pub text_lt : Text → Text → Bool
text_lt [] [] = false
text_lt [] (b ∷ t) = true
text_lt (a ∷ s) [] = false
text_lt (a ∷ s) (b ∷ t) = let later = text_lt s t in if a == b then later else ltb a b

text_lt-prefix : (p s t : Text) → text_lt (p ++ s) (p ++ t) ≡ text_lt s t
unfolding text_lt
text_lt-prefix [] s t = refl
text_lt-prefix (c ∷ p) s t =
    let same : (c == c) ≡ true = ground arith in rw same (text_lt-prefix p s t)

text_lt-head : (a b : ℕ) (s t : Text) → a < b → text_lt (a ∷ s) (b ∷ t) ≡ true
unfolding text_lt
text_lt-head a b s t h = ground arith

text_lt-fixed :
    (width m n : ℕ) (s t : Text)
    → m < n
    → n < 16 ^ width
    → text_lt (fixed width m ++ s) (fixed width n ++ t) ≡ true
unfolding fixed
text_lt-fixed zero m n s t h small = absurd (omega (arith, h, small))
text_lt-fixed (suc width) m n s t h small =
    rw (append_assoc (fixed width (m / 16)) (digit (m % 16) ∷ []) s) (
      rw (append_assoc (fixed width (n / 16)) (digit (n % 16) ∷ []) t) (elim (high_digits m n h) [
        | inl less ↦
            text_lt-fixed width (m / 16) (n / 16) (digit (m % 16) ∷ s) (digit (n % 16) ∷ t) less
              (omega (arith, small, pow-suc 16 width))
        | inr (same, less) ↦ rw same (
            text_lt-prefix (fixed width (n / 16)) (digit (m % 16) ∷ s) (digit (n % 16) ∷ t)
            ∙ text_lt-head (digit (m % 16)) (digit (n % 16)) s t
                (digit-less (m % 16) (n % 16) less (omega arith)))
      ]))
  where
    high_digits : (m n : ℕ) → m < n → (m / 16 < n / 16) ⊎ ((m / 16 ≡ n / 16) × (m % 16 < n % 16))
    high_digits m n h = ground arith

    digit-less : (d e : ℕ) → d < e → e < 16 → digit d < digit e
    digit-less d e h small = ground arith

-- Of two identifiers whose timestamps are below 2 ^ 48 milliseconds, the one with the earlier
-- timestamp is the smaller string, whatever the random bytes are.
pub text_lt-generate_uuid_v7 :
    (m n : ℕ) (r q : Random)
    → m < n
    → n < 16 ^ 12
    → text_lt (generate_uuid_v7 m r) (generate_uuid_v7 n q) ≡ true
text_lt-generate_uuid_v7 m n r q h small = rw (generate_uuid_v7-joined m r (omega arith)) (
    rw (generate_uuid_v7-joined n q small) (elim (high_group m n h) [
      | inl less ↦ text_lt-fixed 8 (m / 65536) (n / 65536) _ _ less (omega (arith, small))
      | inr (same, less) ↦ rw same (
          text_lt-prefix (fixed 8 (n / 65536)) _ _
          ∙ text_lt-prefix (b'-' ∷ []) _ _
          ∙ text_lt-fixed 4 (m % 65536) (n % 65536) _ _ less (omega arith))
    ]))
  where
    high_group :
        (m n : ℕ)
        → m < n
        → (m / 65536 < n / 65536) ⊎ ((m / 65536 ≡ n / 65536) × (m % 65536 < n % 65536))
    high_group m n h = ground arith
