-- ===== src/Identifiers/Layout.antt =====
-- The layout of an identifier, and its timestamp.
use mathlib.Core.List.{append_assoc}
use bet_advise.Base.{
  ◌≡◌, refl, sym, ap, ◌∙◌, ◌⊎◌, ℕ, zero, suc, ◌*◌, ◌/◌, ◌%◌, ◌^◌, ◌≤◌, ◌<◌, List, [], ◌∷◌, ◌++◌,
  All, take, drop, length, length-append, Occurs, arith,
}
use bet_advise.Base.Text.{Text, codes}
use bet_advise.Identifiers.{
  digit, Random, hex_bytes, version_of, variant_of, ver_and_rand_hex, var_and_rand_hex, grouped,
  generate_uuid_v7,
}
use bet_advise.Identifiers.Hex.{fixed, length-fixed, pad-to_hex, fixed-split, of_hex, of_hex-fixed}

take-append : (n : ℕ) (s t : Text) → length s ≡ n → take n (s ++ t) ≡ s
take-append zero [] t h = refl
take-append (suc n) [] t h = ground arith
take-append zero (c ∷ s) t h = ground arith
take-append (suc n) (c ∷ s) t h = ap (λ r. c ∷ r) (take-append n s t (omega arith))

drop-append : (n : ℕ) (s t : Text) → length s ≡ n → drop n (s ++ t) ≡ t
drop-append zero [] t h = refl
drop-append (suc n) [] t h = ground arith
drop-append zero (c ∷ s) t h = ground arith
drop-append (suc n) (c ∷ s) t h = drop-append n s t (omega arith)

take-length : (n : ℕ) (s : Text) → length s ≡ n → take n s ≡ s
take-length zero [] h = refl
take-length (suc n) [] h = refl
take-length zero (c ∷ s) h = ground arith
take-length (suc n) (c ∷ s) h = ap (λ r. c ∷ r) (take-length n s (omega arith))

-- The text of an identifier from its parts.
abbrev pub joined : Text → Text → Text → Text → Text → Text
joined a b c d e = a ++ (b'-' ∷ (b ++ (b'-' ∷ (c ++ (b'-' ∷ (d ++ (b'-' ∷ e)))))))

-- A byte.
abbrev pub IsByte : ℕ → Type 0
IsByte b = b < 256

-- The digits of the variant and the random ones after them.
abbrev pub tail_of : Random → Text
tail_of r = fixed 2 (variant_of r) ++ hex_bytes r.others

-- Below 2 ^ 48 milliseconds, the identifier is the timestamp, the version and the variant with the
-- random bits, in groups.
pub generate_uuid_v7-joined :
    (timestamp : ℕ) (r : Random)
    → timestamp < 16 ^ 12
    → generate_uuid_v7 timestamp r
      ≡ joined
          (fixed 8 (timestamp / 65536))
          (fixed 4 (timestamp % 65536))
          (fixed 4 (version_of r))
          (take 4 (tail_of r))
          (drop 4 (tail_of r))
unfolding generate_uuid_v7 grouped ver_and_rand_hex var_and_rand_hex
generate_uuid_v7-joined timestamp r small =
    rw (pad-to_hex 12 timestamp (omega arith) (omega arith) small) (
      rw (pad-to_hex 4 (version_of r) (omega arith) (omega arith) (omega arith)) (
        rw (pad-to_hex 2 (variant_of r) (omega arith) (omega arith) (omega arith))
          (rw (fixed-split timestamp) (two_groups _ _ _ (length-fixed 8 _) (length-fixed 4 _)))))
  where
    two_groups :
        (a b rest : Text)
        → length a ≡ 8
        → length b ≡ 4
        → take 8 (a ++ b) ++ (b'-' ∷ (take 4 (drop 8 (a ++ b)) ++ (b'-' ∷ rest)))
          ≡ a ++ (b'-' ∷ (b ++ (b'-' ∷ rest)))
    two_groups a b rest h h' =
        rw (take-append 8 a b h) (rw (drop-append 8 a b h) (rw (take-length 4 b h') refl))

-- The timestamp of an identifier: the digits of its first two groups.
unfoldable pub timestamp_of : Text → ℕ
timestamp_of u = of_hex 0 (take 8 u ++ take 4 (drop 9 u))

-- A timestamp below 2 ^ 48 milliseconds, which the clock passes in the year 10889, is read back
-- from its identifier, whatever the random bytes are.
pub timestamp_of-generate_uuid_v7 :
    (timestamp : ℕ) (r : Random)
    → timestamp < 16 ^ 12
    → timestamp_of (generate_uuid_v7 timestamp r) ≡ timestamp
unfolding timestamp_of
timestamp_of-generate_uuid_v7 timestamp r small = rw (generate_uuid_v7-joined timestamp r small) (
    ap (of_hex 0)
      (two_groups _ _ _ (length-fixed 8 _) (length-fixed 4 _) ∙ sym (fixed-split timestamp))
    ∙ of_hex-fixed 12 timestamp small)
  where
    two_groups :
        (a b rest : Text)
        → length a ≡ 8
        → length b ≡ 4
        → take 8 (a ++ (b'-' ∷ (b ++ rest))) ++ take 4 (drop 9 (a ++ (b'-' ∷ (b ++ rest)))) ≡ a ++ b
    two_groups a b rest h h' =
        let e : length (a ++ b'-' ∷ []) ≡ 9 = omega (arith, length-append a (b'-' ∷ []), h) in
        rw (take-append 8 a (b'-' ∷ (b ++ rest)) h) (
          rw (← append_assoc a (b'-' ∷ []) (b ++ rest))
            (rw (drop-append 9 (a ++ b'-' ∷ []) (b ++ rest) e) (rw (take-append 4 b rest h') refl)))

-- The digits 0 to 9 and a to f.
abbrev pub IsDigit : ℕ → Type 0
IsDigit c = ((48 ≤ c) × (c ≤ 57)) ⊎ ((97 ≤ c) × (c ≤ 102))

abbrev pub IsHex : Text → Type 0
IsHex s = All IsDigit s

-- The layout of RFC 9562 for version 7: groups of 8, 4, 4, 4 and 12 digits, the third of which
-- begins with 7 and the fourth with one of 8, 9, a and b.
pub record IsUuidV7 (u : Text) : Type 0 where
  pub a : Text
  pub b : Text
  pub c : Text
  pub d : Text
  pub e : Text
  pub variant : ℕ
  pub whole : u ≡ joined a b (b'7' ∷ c) (variant ∷ d) e
  pub lengths : (length a ≡ 8) × (length b ≡ 4) × (length c ≡ 3) × (length d ≡ 3) × (length e ≡ 12)
  pub digits : IsHex a × IsHex b × IsHex c × IsHex d × IsHex e
  pub ten : Occurs variant (codes "89ab")

digit-IsDigit : (d : ℕ) → d < 16 → IsDigit (digit d)
digit-IsDigit d small = ground arith

fixed-IsHex : (width n : ℕ) → IsHex (fixed width n)
unfolding fixed
fixed-IsHex zero n = tt
fixed-IsHex (suc width) n =
    All-append (fixed width (n / 16)) _ (fixed-IsHex width (n / 16))
      (digit-IsDigit (n % 16) (omega arith), tt)
  where
    All-append : (s t : Text) → IsHex s → IsHex t → IsHex (s ++ t)
    All-append [] t h k = k
    All-append (c ∷ s) t (h, hs) k = (h, All-append s t hs k)

hex_bytes-IsHex : (bs : List ℕ) → All IsByte bs → IsHex (hex_bytes bs)
unfolding hex_bytes
hex_bytes-IsHex [] h = tt
hex_bytes-IsHex (b ∷ bs) (byte, h) = (
  digit-IsDigit (b / 16) (omega (arith, byte)),
  (digit-IsDigit (b % 16) (omega arith), hex_bytes-IsHex bs h),
)

length-hex_bytes : (bs : List ℕ) → length (hex_bytes bs) ≡ 2 * length bs
unfolding hex_bytes
length-hex_bytes [] = refl
length-hex_bytes (b ∷ bs) = omega (arith, length-hex_bytes bs)

-- Two digits of the first of the other bytes stand before the last dash.
cut :
    (bs : List ℕ)
    → length bs ≡ 7
    → All IsByte bs
    → (x : ℕ) × (y : ℕ) × (rest : Text) × (hex_bytes bs ≡ x ∷ y ∷ rest)
      × IsDigit x
      × IsDigit y
      × IsHex rest
      × (length rest ≡ 12)
unfolding hex_bytes
cut [] seven bytes = ground arith
cut (b ∷ bs) seven (byte, bytes) = (
  digit (b / 16),
  digit (b % 16),
  hex_bytes bs,
  refl,
  digit-IsDigit (b / 16) (omega (arith, byte)),
  digit-IsDigit (b % 16) (omega arith),
  hex_bytes-IsHex bs bytes,
  omega (arith, length-hex_bytes bs, seven),
)

-- An identifier has the layout, when the timestamp is below 2 ^ 48 milliseconds and there are
-- seven bytes after the first three.
pub generate_uuid_v7-IsUuidV7 :
    (timestamp : ℕ) (r : Random)
    → timestamp < 16 ^ 12
    → length r.others ≡ 7
    → All IsByte r.others
    → IsUuidV7 (generate_uuid_v7 timestamp r)
unfolding fixed
generate_uuid_v7-IsUuidV7 timestamp r small seven bytes =
    let (x, y, rest, e, hx, hy, hex, twelve) = cut r.others seven bytes in
    let seventh : version_of r / 16 / 16 / 16 % 16 ≡ 7 = omega arith in
    record {
      a = fixed 8 (timestamp / 65536);
      b = fixed 4 (timestamp % 65536);
      c = fixed 3 (version_of r);
      d = digit (variant_of r % 16) ∷ x ∷ y ∷ [];
      e = rest;
      variant = digit (variant_of r / 16 % 16);
      whole = generate_uuid_v7-joined timestamp r small ∙ rw e (rw seventh refl);
      lengths = (
        length-fixed 8 (timestamp / 65536),
        length-fixed 4 (timestamp % 65536),
        refl,
        refl,
        twelve,
      );
      digits = (
        fixed-IsHex 8 (timestamp / 65536),
        fixed-IsHex 4 (timestamp % 65536),
        fixed-IsHex 3 (version_of r),
        (digit-IsDigit _ (omega arith), (hx, (hy, tt))),
        hex,
      );
      ten = ground arith;
    }
