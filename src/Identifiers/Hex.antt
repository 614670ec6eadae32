-- ===== src/Identifiers/Hex.antt =====
-- Digits of a fixed width, which padding comes to.
use mathlib.Core.List.{append_assoc, append-nil}
use native.Mathlib.Nat.{pow-suc}
use bet_advise.Base.{
  ◌≡◌, refl, sym, ap, ◌∙◌, inl, inr, ℕ, zero, suc, ◌+◌, ◌-◌, ◌*◌, ◌/◌, ◌%◌, ◌^◌, ◌≤◌, ◌<◌, Bool,
  Bool-cases, [], ◌∷◌, ◌++◌, length, length-append, ltb, ◌==◌, ==_iff, if◌then◌else◌, arith,
}
use bet_advise.Base.Text.{Text, codes}
use bet_advise.Identifiers.{digit, hex_from, to_hex, zeros, pad_start}

-- The last digits of a number.
unfoldable pub fixed : ℕ → ℕ → Text
fixed zero n = []
fixed (suc width) n = fixed width (n / 16) ++ digit (n % 16) ∷ []

pub length-fixed : (width n : ℕ) → length (fixed width n) ≡ width
unfolding fixed
length-fixed zero n = refl
length-fixed (suc width) n =
    omega (
      arith,
      length-append (fixed width (n / 16)) (digit (n % 16) ∷ []),
      length-fixed width (n / 16),
    )

zeros-last : (width : ℕ) → zeros width ++ b'0' ∷ [] ≡ b'0' ∷ zeros width
zeros-last zero = refl
zeros-last (suc width) = ap (λ s. b'0' ∷ s) (zeros-last width)

zeros-fixed : (width : ℕ) → zeros width ≡ fixed width 0
unfolding fixed
zeros-fixed zero = refl
zeros-fixed (suc width) = sym (zeros-last width) ∙ ap (λ s. s ++ b'0' ∷ []) (zeros-fixed width)

hex_from_zero : (places n : ℕ) → n ≡ 0 → hex_from places n ≡ []
unfolding hex_from
hex_from_zero zero n h = refl
hex_from_zero (suc places) n h = rw h refl

pad-hex_from :
    (width places n : ℕ)
    → n < 16 ^ width
    → width ≤ places
    → pad_start width (hex_from places n) ≡ fixed width n
unfolding hex_from fixed
pad-hex_from zero zero n small enough = refl
pad-hex_from zero (suc places) n small enough =
    let e : n ≡ 0 = omega (arith, small) in rw (hex_from_zero (suc places) n e) refl
pad-hex_from (suc width) zero n small enough = ground arith
pad-hex_from (suc width) (suc places) n small enough = elim (Bool-cases (n == 0)) [
  | inl none_left ↦
      let e : n ≡ 0 = (==_iff n 0).0 none_left in
      rw (hex_from_zero (suc places) n e) (rw e (padded_zeros (suc width)))
  | inr some_left ↦
      let rest =
        pad-hex_from width places (n / 16) (omega (arith, small, pow-suc 16 width)) (omega arith) in
      rw (some_left, hex_from)
        (last_digit width (hex_from places (n / 16)) (digit (n % 16))
          ∙ ap (λ s. s ++ digit (n % 16) ∷ []) rest)
]
  where
    padded_zeros : (width : ℕ) → zeros (width - 0) ++ [] ≡ fixed width 0
    padded_zeros width =
        let e : width - 0 ≡ width = omega arith in
        rw e (append-nil (zeros width) ∙ zeros-fixed width)

    last_digit :
        (width : ℕ) (high : Text) (d : ℕ)
        → pad_start (suc width) (high ++ d ∷ []) ≡ pad_start width high ++ d ∷ []
    last_digit width high d =
        let e : suc width - length (high ++ d ∷ []) ≡ width - length high =
          omega (arith, length-append high (d ∷ [])) in
        rw e (sym (append_assoc (zeros (width - length high)) high (d ∷ [])))

-- Within its width, a padded number is the digits of that width.
pub pad-to_hex :
    (width n : ℕ)
    → 1 ≤ width
    → width ≤ 14
    → n < 16 ^ width
    → pad_start width (to_hex n) ≡ fixed width n
unfolding to_hex
pad-to_hex width n filled short small = elim (Bool-cases (n == 0)) [
  | inr some_left ↦ ap (pad_start width) (chosen some_left) ∙ pad-hex_from width 14 n small short
  | inl none_left ↦
      ap (pad_start width) (chosen none_left)
      ∙ one_zero width filled
      ∙ ap (fixed width) (sym ((==_iff n 0).0 none_left))
]
  where
    chosen : {b : Bool} → (n == 0) ≡ b → to_hex n ≡ (if b then codes "0" else hex_from 14 n)
    chosen e = ap (λ b. if b then codes "0" else hex_from 14 n) e

    one_zero : (width : ℕ) → 1 ≤ width → pad_start width (codes "0") ≡ fixed width 0
    one_zero zero filled = ground arith
    one_zero (suc width) filled =
        let e : suc width - 1 ≡ width = omega arith in
        rw e (zeros-last width ∙ zeros-fixed (suc width))

-- The last four digits stand apart from those before them.
pub fixed-split : (n : ℕ) → fixed 12 n ≡ fixed 8 (n / 65536) ++ fixed 4 (n % 65536)
unfolding fixed
fixed-split n =
    let high : n / 65536 ≡ n / 16 / 16 / 16 / 16 = omega arith in
    let third : n % 65536 / 16 / 16 / 16 % 16 ≡ n / 16 / 16 / 16 % 16 = omega arith in
    let second : n % 65536 / 16 / 16 % 16 ≡ n / 16 / 16 % 16 = omega arith in
    let first : n % 65536 / 16 % 16 ≡ n / 16 % 16 = omega arith in
    let last : n % 65536 % 16 ≡ n % 16 = omega arith in
    rw high (rw third (rw second (rw first (rw last refl))))

-- Reading digits.
abbrev digit_value : ℕ → ℕ
digit_value c = if ltb c 58 then c - 48 else c - 87

unfoldable pub of_hex : ℕ → Text → ℕ
of_hex n [] = n
of_hex n (c ∷ s) = of_hex (16 * n + digit_value c) s

of_hex-append : (n : ℕ) (s t : Text) → of_hex n (s ++ t) ≡ of_hex (of_hex n s) t
unfolding of_hex
of_hex-append n [] t = refl
of_hex-append n (c ∷ s) t = of_hex-append (16 * n + digit_value c) s t

digit_value-digit : (d : ℕ) → d < 16 → digit_value (digit d) ≡ d
digit_value-digit d small = ground arith

pub of_hex-fixed : (width n : ℕ) → n < 16 ^ width → of_hex 0 (fixed width n) ≡ n
unfolding of_hex fixed
of_hex-fixed zero n small = omega (arith, small)
of_hex-fixed (suc width) n small =
    of_hex-append 0 (fixed width (n / 16)) (digit (n % 16) ∷ [])
    ∙ omega (
      arith,
      of_hex-fixed width (n / 16) (omega (arith, small, pow-suc 16 width)),
      digit_value-digit (n % 16) (omega arith),
    )
