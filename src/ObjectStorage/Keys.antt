-- ===== src/ObjectStorage/Keys.antt =====
-- What a normalised key looks like.
use bet_advise.Base.{
  ℕ, ◌≤◌, ◌≡◌, refl, inl, inr, false, [], ◌∷◌, map, length, All, ◌==◌, Bool-cases, arith,
}
use bet_advise.Base.Exec.{ok}
use bet_advise.Base.Text.{Text, codes, is_empty, starts_with, includes}
use bet_advise.ObjectStorage.{to_slash, strip_slashes, climbs, validate_and_normalize_key}

-- No backslash is left.
map-slashed : (s : Text) → All (λ c. (c == 92) ≡ false) (map to_slash s)
map-slashed [] = tt
map-slashed (c ∷ s) = (ground arith, map-slashed s)

strip_slashes-All : (P : ℕ → Type 0) (s : Text) → All P s → All P (strip_slashes s)
unfolding strip_slashes
strip_slashes-All P [] h = tt
strip_slashes-All P (c ∷ s) (p, h) = elim (Bool-cases (c == b'/')) [
  | inl slash ↦ rw slash (strip_slashes-All P s h)
  | inr other ↦ rw other (p, h)
]

strip_slashes-start : (s : Text) → starts_with (strip_slashes s) (codes "/") ≡ false
unfolding strip_slashes starts_with
strip_slashes-start [] = refl
strip_slashes-start (c ∷ s) = ground (arith, strip_slashes-start s)

-- A text that contains what a normalised key does not.
strip_slashes-includes : (s p : Text) → includes s p ≡ false → includes (strip_slashes s) p ≡ false
unfolding strip_slashes includes
strip_slashes-includes [] p h = h
strip_slashes-includes (c ∷ s) p h = elim (Bool-cases (c == b'/')) [
  | inl slash ↦ rw slash (strip_slashes-includes s p (ground arith))
  | inr other ↦ rw other h
]

map-starts_with :
    (s : Text)
    → starts_with s (codes "../") ≡ false
    → starts_with s (b'.' ∷ b'.' ∷ 92 ∷ []) ≡ false
    → starts_with (map to_slash s) (codes "../") ≡ false
unfolding starts_with
map-starts_with [] h k = refl
map-starts_with (a ∷ []) h k = ground arith
map-starts_with (a ∷ b ∷ []) h k = ground arith
map-starts_with (a ∷ b ∷ c ∷ s) h k = ground arith

map-includes : (s : Text) → climbs s ≡ false → includes (map to_slash s) (codes "../") ≡ false
unfolding includes
map-includes [] h = refl
map-includes (c ∷ s) h = ground (arith, map-starts_with (c ∷ s), map-includes s)

slash_of_other : (c : ℕ) → (c == 92) ≡ false → to_slash c ≡ c
slash_of_other c h = ground arith

map-same : (s : Text) → All (λ c. (c == 92) ≡ false) s → map to_slash s ≡ s
map-same [] h = refl
map-same (c ∷ s) (p, h) = ground (arith, slash_of_other c p, map-same s h)

strip_slashes-same : (s : Text) → starts_with s (codes "/") ≡ false → strip_slashes s ≡ s
unfolding strip_slashes starts_with
strip_slashes-same [] h = refl
strip_slashes-same (c ∷ s) h = ground arith

includes-unslashed :
    (s : Text) → All (λ c. (c == 92) ≡ false) s → includes s (b'.' ∷ b'.' ∷ 92 ∷ []) ≡ false
unfolding includes starts_with
includes-unslashed [] h = refl
includes-unslashed (a ∷ []) (p, h) = ground arith
includes-unslashed (a ∷ b ∷ []) (p, (q, h)) = ground arith
includes-unslashed (a ∷ b ∷ c ∷ s) (p, (q, (r, h))) =
    ground (arith, includes-unslashed (b ∷ c ∷ s) (q, (r, h)))

-- A key as it is handed to S3. Its last segment may still be `..`.
pub record IsClean (k : Text) : Type 0 where
  pub relative : starts_with k (codes "/") ≡ false
  pub no_parent_prefix : climbs k ≡ false
  pub slashed : All (λ c. (c == 92) ≡ false) k
  pub filled : is_empty k ≡ false
  pub bounded : length k ≤ 1024

validate_and_normalize_key-ok :
    (key k : Text)
    → validate_and_normalize_key key ≡ ok k
    → (k ≡ strip_slashes (map to_slash key))
      × (climbs key ≡ false)
      × (is_empty k ≡ false)
      × (length k ≤ 1024)
unfolding validate_and_normalize_key
validate_and_normalize_key-ok key k h = ground arith

IsClean-kept : (k : Text) → IsClean k → validate_and_normalize_key k ≡ ok k
unfolding validate_and_normalize_key
IsClean-kept k c =
    let le = c.bounded in
    rw (map-same k c.slashed)
      (rw (strip_slashes-same k c.relative) (rw c.no_parent_prefix (rw c.filled (ground arith))))

-- A key that is accepted comes to one that is not empty, has at most 1024 code units and no
-- backslash, does not start with a slash, and contains no `../`; it is accepted again as it is. (It
-- may be `..` or end in `/..`.)
pub validate_and_normalize_key-IsClean :
    (key k : Text)
    → validate_and_normalize_key key ≡ ok k
    → IsClean k × (validate_and_normalize_key k ≡ ok k)
validate_and_normalize_key-IsClean key k h =
    let (same, inside, filled, bounded) = validate_and_normalize_key-ok key k h in
    let slashed : All (λ c. (c == 92) ≡ false) k =
      rw same (strip_slashes-All (λ c. (c == 92) ≡ false) (map to_slash key) (map-slashed key)) in
    let climbing : includes k (codes "../") ≡ false =
      rw same (strip_slashes-includes (map to_slash key) (codes "../") (map-includes key inside)) in
    let clean : IsClean k = record {
      relative = rw same (strip_slashes-start (map to_slash key));
      no_parent_prefix = rw climbing (includes-unslashed k slashed);
      slashed = slashed;
      filled = filled;
      bounded = bounded;
    } in
    (clean, IsClean-kept k clean)
