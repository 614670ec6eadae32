-- ===== src/Coupons.antt =====
-- The coupon draft: src/coupons/domain/coupon-draft.entity.ts.
pub mod Tally
pub mod Distinct
pub mod Risk
use bet_advise.Base.{
  ℕ, suc, ◌+◌, ◌≡◌, Bool, true, false, not, Option, none, some, List, [], ◌∷◌, ◌++◌, map, any,
  length, ltb, ◌==◌, if◌then◌else◌,
}
use bet_advise.Base.Number.{Arithmetic}
use bet_advise.Base.Text.{Text, codes, text_eq, member}

pub data RiskDecision : Type 0 where
  approved rejected : RiskDecision

-- The reason codes, which the source writes as string literals.
pub data RiskReason : Type 0 where
  coupon_empty_legs : RiskReason
  exceeds_maximum_legs : RiskReason
  correlated_legs_same_match : RiskReason
  excessive_sport_concentration : RiskReason
  excessive_competition_concentration : RiskReason

pub record CouponLeg (Num : Type 0) : Type 0 where
  pub advice_id : Text
  pub match_id : Text
  pub sport : Text
  pub competition : Text
  pub market : Text
  pub selection : Text
  pub decimal_odds : Num
  pub calibrated_probability : Num
  pub expected_value : Num

pub record CouponDraft (Num : Type 0) : Type 0 where
  pub id : Text
  pub tenant_id : Text
  pub legs : List (CouponLeg Num)
  pub combined_decimal_odds : Num
  pub expected_value : Num
  pub risk_decision : RiskDecision
  pub rejection_reasons : Option (List RiskReason)
  pub created_at : ℕ
  pub expires_at : ℕ

-- `new Set(xs)`, whose size alone is read.
set_from : List Text → List Text → List Text
set_from seen [] = seen
set_from seen (x ∷ xs) = set_from (if member x seen then seen else x ∷ seen) xs

-- `new Set(xs).size !== xs.length`
unfoldable pub has_repeats : List Text → Bool
unfolding set_from
has_repeats xs = not (length (set_from [] xs) == length xs)

-- The names that an object literal inherits from `Object.prototype`: reading one gives a value
-- that is not a number, also before it is set.
abbrev pub inherited : List Text
inherited =
    codes "__proto__"
    ∷ codes "constructor"
    ∷ codes "hasOwnProperty"
    ∷ codes "isPrototypeOf"
    ∷ codes "propertyIsEnumerable"
    ∷ codes "toLocaleString"
    ∷ codes "toString"
    ∷ codes "valueOf"
    ∷ codes "__defineGetter__"
    ∷ codes "__defineSetter__"
    ∷ codes "__lookupGetter__"
    ∷ codes "__lookupSetter__"
    ∷ []

-- A property's value: a count, or the string that adding 1 to an inherited value makes.
pub data Slot : Type 0 where
  number : ℕ → Slot
  string : Slot

abbrev pub Counts : Type 0
Counts = List (Text × Slot)

unfoldable pub lookup : Text → Counts → Option Slot
lookup s [] = none
lookup s ((k, v) ∷ m) = if text_eq k s then some v else lookup s m

unfoldable pub put : Text → Slot → Counts → Counts
put s v [] = (s, v) ∷ []
put s v ((k, w) ∷ m) = if text_eq k s then (k, v) ∷ m else (k, w) ∷ put s v m

-- `(acc[s] || 0) + 1`
abbrev next : Text → Option Slot → Slot
next s (some (number k)) = number (k + 1)
next s (some string) = string
next s none = if member s inherited then string else number 1

-- `acc[s] = (acc[s] || 0) + 1`; a write of a string or a number to `__proto__` is ignored.
bump : Counts → Text → Counts
bump acc s = if text_eq s (codes "__proto__") then acc else put s (next s (lookup s acc)) acc

tally : Counts → List Text → Counts
unfolding bump
tally acc [] = acc
tally acc (s ∷ ss) = tally (bump acc s) ss

-- `count > 3`: a string compares as NaN.
abbrev over_three : Text × Slot → Bool
over_three (_, number k) = ltb 3 k
over_three (_, string) = false

-- `Object.values(counts).some((count) => count > 3)`
unfoldable pub concentrated : List Text → Bool
unfolding tally
concentrated xs = any over_three (tally [] xs)

abbrev reason_if : Bool → RiskReason → List RiskReason
reason_if c r = if c then r ∷ [] else []

module _ (n : Arithmetic) where
  open n use {Num, decimal, is_finite, add, mul, div}

  product : Num → List (CouponLeg Num) → Num
  product acc [] = acc
  product acc (leg ∷ legs) = product (mul acc leg.decimal_odds) legs

  total_ev : Num → List (CouponLeg Num) → Num
  total_ev acc [] = acc
  total_ev acc (leg ∷ legs) = total_ev (add acc leg.expected_value) legs

  -- `legs.length || 1`
  abbrev divisor : ℕ → ℕ
  divisor l = if l == 0 then 1 else l

  unfoldable pub rejection_reasons_of : List (CouponLeg Num) → List RiskReason
  rejection_reasons_of legs =
      reason_if (length legs == 0) coupon_empty_legs
      ++ (reason_if (ltb 5 (length legs)) exceeds_maximum_legs
          ++ (reason_if (has_repeats (map (λ l. l.match_id) legs)) correlated_legs_same_match
              ++ (reason_if (concentrated (map (λ l. l.sport) legs)) excessive_sport_concentration
                  ++ reason_if (concentrated (map (λ l. l.competition) legs))
                      excessive_competition_concentration)))

  -- `CouponDraft.create`
  unfoldable pub create :
      (id tenant_id : Text) → List (CouponLeg Num) → (created_at expires_at : ℕ) → CouponDraft Num
  unfolding product total_ev
  create id tenant_id legs created expires =
      let reasons = rejection_reasons_of legs in
      let combined = product (decimal 1 0) legs in
      let average = div (total_ev (decimal 0 0) legs) (decimal (divisor (length legs)) 0) in
      let is_rejected = ltb 0 (length reasons) in
      record {
        id = id;
        tenant_id = tenant_id;
        legs = legs;
        combined_decimal_odds = if is_finite combined then combined else decimal 1 0;
        expected_value = if is_finite average then average else decimal 0 0;
        risk_decision = if is_rejected then rejected else approved;
        rejection_reasons = if is_rejected then some reasons else none;
        created_at = created;
        expires_at = expires;
      }
