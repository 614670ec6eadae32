-- ===== src/Tests/Fixed.antt =====
-- An arithmetic to evaluate with: decimals of four places, and one value that is not a number.
use bet_advise.Base.{
  ℕ, suc, ◌+◌, ◌-◌, ◌*◌, ◌/◌, ◌^◌, ◌≡◌, Bool, true, false, not, ltb, leb, ◌==◌, if◌then◌else◌,
  arith,
}
use bet_advise.Base.Number.{Arithmetic, IsOrdered}

-- `neg k` is -(k + 1) / 10000.
pub data Fixed : Type 0 where
  nan : Fixed
  pos : ℕ → Fixed
  neg : ℕ → Fixed

abbrev finite : Fixed → Bool
finite nan = false
finite _ = true

abbrev plus_part : Fixed → ℕ
plus_part (pos k) = k
plus_part _ = 0

abbrev minus_part : Fixed → ℕ
minus_part (neg k) = suc k
minus_part _ = 0

abbrev from_parts : ℕ → ℕ → Fixed
from_parts a b = if leb b a then pos (a - b) else neg (b - a - 1)

abbrev less : Fixed → Fixed → Bool
less nan _ = false
less _ nan = false
less x y = ltb (plus_part x + minus_part y) (plus_part y + minus_part x)

abbrev at_most : Fixed → Fixed → Bool
at_most nan _ = false
at_most _ nan = false
at_most x y = leb (plus_part x + minus_part y) (plus_part y + minus_part x)

abbrev product : Fixed → Fixed → Fixed
product nan _ = nan
product _ nan = nan
product x y =
    from_parts ((plus_part x * plus_part y + minus_part x * minus_part y) / 10000)
      ((plus_part x * minus_part y + minus_part x * plus_part y) / 10000)

abbrev sum : Fixed → Fixed → Fixed
sum nan _ = nan
sum _ nan = nan
sum x y = from_parts (plus_part x + plus_part y) (minus_part x + minus_part y)

abbrev difference : Fixed → Fixed → Fixed
difference nan _ = nan
difference _ nan = nan
difference x y = from_parts (plus_part x + minus_part y) (minus_part x + plus_part y)

abbrev quotient : Fixed → Fixed → Fixed
quotient nan _ = nan
quotient x (pos (suc k)) = from_parts (plus_part x * 10000 / suc k) (minus_part x * 10000 / suc k)
quotient x _ = nan

abbrev truthy : Fixed → Bool
truthy nan = false
truthy (pos k) = not (k == 0)
truthy (neg k) = true

abbrev pub fixed : Arithmetic
fixed = record {
  Num = Fixed;
  decimal = λ m e. pos (m * 10000 / 10 ^ e);
  is_finite = finite;
  is_truthy = truthy;
  lt = less;
  le = at_most;
  add = sum;
  sub = difference;
  mul = product;
  div = quotient;
}

at_most_total : (x y : Fixed) → finite x ≡ true → finite y ≡ true → at_most x y ≡ not (less y x)
at_most_total x y h k = ground arith

pub fixed-IsOrdered : IsOrdered fixed
fixed-IsOrdered = record {
  le_total = at_most_total;
  zero_finite = ground arith;
  one_finite = ground arith;
}
