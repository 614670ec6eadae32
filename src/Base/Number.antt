-- ===== src/Base/Number.antt =====
-- JavaScript's numbers, as far as the program uses them: IEEE doubles are a parameter, with the
-- operations that the source applies and the laws of IEEE 754 that a theorem relies on.
use Prim.Native.Nat.{ℕ}
use mathlib.Core.Path.{◌≡◌}
use mathlib.Core.Bool.{Bool, true, not}

pub record Arithmetic : Type 1 where
  pub Num : Type 0
  -- `decimal m e` is the literal m / 10 ^ e.
  pub decimal : ℕ → ℕ → Num
  pub is_finite : Num → Bool
  -- The value is neither 0 nor NaN.
  pub is_truthy : Num → Bool
  pub lt : Num → Num → Bool
  pub le : Num → Num → Bool
  pub add : Num → Num → Num
  pub sub : Num → Num → Num
  pub mul : Num → Num → Num
  pub div : Num → Num → Num

-- What IEEE 754 says of comparisons: finite numbers are totally ordered.
pub record IsOrdered (n : Arithmetic) : Type 0 where
  pub le_total :
      (x y : n.Num) → n.is_finite x ≡ true → n.is_finite y ≡ true → n.le x y ≡ not (n.lt y x)
  pub zero_finite : n.is_finite (n.decimal 0 0) ≡ true
  pub one_finite : n.is_finite (n.decimal 1 0) ≡ true
