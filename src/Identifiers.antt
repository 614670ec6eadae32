-- ===== src/Identifiers.antt =====
-- The identifiers: `generateUuidV7` of src/shared/domain/uuid.ts. The clock and the random bytes
-- are arguments.
pub mod Hex
pub mod Layout
pub mod Order
use bet_advise.Base.{
  ℕ, zero, suc, ◌+◌, ◌-◌, ◌*◌, ◌/◌, ◌%◌, Bool, true, false, List, [], ◌∷◌, ◌++◌, length, take, drop,
  ltb, ◌==◌, if◌then◌else◌,
}
use bet_advise.Base.Text.{Text, codes}

-- A digit of `toString(16)`.
abbrev pub digit : ℕ → ℕ
digit d = if ltb d 10 then 48 + d else 87 + d

hex_from : ℕ → ℕ → Text
hex_from zero n = []
hex_from (suc places) n =
    let high = hex_from places (n / 16) in if n == 0 then [] else high ++ digit (n % 16) ∷ []

-- `n.toString(16)`; the integers that a number of JavaScript holds have at most 14 digits.
unfoldable pub to_hex : ℕ → Text
unfolding hex_from
to_hex n = if n == 0 then codes "0" else hex_from 14 n

abbrev pub zeros : ℕ → Text
zeros zero = []
zeros (suc n) = b'0' ∷ zeros n

-- `s.padStart(width, '0')`
abbrev pub pad_start : ℕ → Text → Text
pad_start width s = zeros (width - length s) ++ s

-- The ten bytes of `randomBytes(10)`: the first three, and the others.
pub record Random : Type 0 where
  pub first : ℕ
  pub second : ℕ
  pub third : ℕ
  pub others : List ℕ

-- `random.toString('hex', 3, 10)`
unfoldable pub hex_bytes : List ℕ → Text
hex_bytes [] = []
hex_bytes (b ∷ bs) = digit (b / 16) ∷ digit (b % 16) ∷ hex_bytes bs

-- `0x7000 | (random.readUInt16BE(0) & 0x0fff)`
abbrev pub version_of : Random → ℕ
version_of r = 28672 + (256 * r.first + r.second) % 4096

-- `(random.readUInt8(2) & 0x3f) | 0x80`
abbrev pub variant_of : Random → ℕ
variant_of r = r.third % 64 + 128

unfoldable pub ver_and_rand_hex : Random → Text
unfolding to_hex
ver_and_rand_hex r = pad_start 4 (to_hex (version_of r))

unfoldable pub var_and_rand_hex : Random → Text
unfolding to_hex hex_bytes
var_and_rand_hex r = pad_start 2 (to_hex (variant_of r)) ++ hex_bytes r.others

-- The five groups, from the three texts of digits.
unfoldable pub grouped : Text → Text → Text → Text
grouped timestamp_hex version_hex variant_hex =
    take 8 timestamp_hex
    ++ (b'-'
        ∷ (take 4 (drop 8 timestamp_hex)
            ++ (b'-'
                ∷ (version_hex ++ (b'-' ∷ (take 4 variant_hex ++ (b'-' ∷ drop 4 variant_hex)))))))

-- `generateUuidV7`
unfoldable pub generate_uuid_v7 : ℕ → Random → Text
unfolding to_hex ver_and_rand_hex var_and_rand_hex grouped
generate_uuid_v7 timestamp random =
    grouped (pad_start 12 (to_hex timestamp)) (ver_and_rand_hex random) (var_and_rand_hex random)
