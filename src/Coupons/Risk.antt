-- ===== src/Coupons/Risk.antt =====
-- What the risk decision of a coupon draft means.
use bet_advise.Base.{
  ℕ, ap, ◌⊎◌, ◌<◌, ◌≤◌, ◌≡◌, ◌↔◌, true, false, none, some, List, [], ◌∷◌, map, ltb, length, All,
  arith, Bool-cases, inl, inr,
}
use bet_advise.Base.Number.{Arithmetic, IsOrdered}
use bet_advise.Base.Text.{Text, text_eq, text_eq_iff, member, Distinct}
use bet_advise.Coupons.{
  approved, CouponLeg, has_repeats, concentrated, inherited, rejection_reasons_of, create,
}
use bet_advise.Coupons.Distinct.{has_repeats_iff}
use bet_advise.Coupons.Tally.{IsPlain, count_of, concentrated-count, count-concentrated}

-- No name that objects do not inherit occurs more than three times.
abbrev pub IsSpread : List Text → Type 0
IsSpread xs = (s : Text) → IsPlain s → count_of s xs ≤ 3

IsSpread-concentrated : (xs : List Text) → IsSpread xs → concentrated xs ≡ false
IsSpread-concentrated xs h = elim (Bool-cases (concentrated xs)) [
  | inl full ↦
      let (s, plain, big) = concentrated-count xs full in
      let small = h s plain in absurd (omega arith)
  | inr spread ↦ spread
]

concentrated-IsSpread : (xs : List Text) → concentrated xs ≡ false → IsSpread xs
concentrated-IsSpread xs h s plain = elim (Bool-cases (ltb 3 (count_of s xs))) [
  | inl big ↦ let full = count-concentrated xs s plain (ground arith) in cc
  | inr small ↦ ground arith
]

module _ (n : Arithmetic) where
  open n use {Num, is_finite}

  -- The limits on a coupon: one to five legs, no match twice, and at most three legs to a sport
  -- and to a competition.
  pub record IsWithinLimits (legs : List (CouponLeg Num)) : Type 0 where
    pub some_leg : 0 < length legs
    pub few_legs : length legs ≤ 5
    pub matches : Distinct (map (λ l. l.match_id) legs)
    pub sports : IsSpread (map (λ l. l.sport) legs)
    pub competitions : IsSpread (map (λ l. l.competition) legs)

  abbrev Clear : List (CouponLeg Num) → Type 0
  Clear legs =
      (0 < length legs)
      × (length legs ≤ 5)
      × (has_repeats (map (λ l. l.match_id) legs) ≡ false)
      × (concentrated (map (λ l. l.sport) legs) ≡ false)
      × (concentrated (map (λ l. l.competition) legs) ≡ false)

  create-approved :
      (id tenant : Text) (legs : List (CouponLeg Num)) (made expires : ℕ)
      → ((create n id tenant legs made expires).risk_decision ≡ approved) ↔ Clear legs
  unfolding create rejection_reasons_of
  create-approved id tenant legs made expires = ground arith

  Clear-IsWithinLimits : (legs : List (CouponLeg Num)) → Clear legs ↔ IsWithinLimits legs
  Clear-IsWithinLimits legs = (
    λ c. record {
      some_leg = c.0;
      few_legs = c.1;
      matches = (has_repeats_iff _).0 c.2;
      sports = concentrated-IsSpread _ c.3;
      competitions = concentrated-IsSpread _ c.4;
    },
    λ w. (
      w.some_leg,
      w.few_legs,
      (has_repeats_iff _).1 w.matches,
      IsSpread-concentrated _ w.sports,
      IsSpread-concentrated _ w.competitions,
    ),
  )

  -- A draft is approved exactly where it has one to five legs, no match twice, and no sport and no
  -- competition more than three times; names that objects inherit, such as "constructor", are not
  -- counted.
  pub create-approved_iff :
      (id tenant : Text) (legs : List (CouponLeg Num)) (made expires : ℕ)
      → ((create n id tenant legs made expires).risk_decision ≡ approved) ↔ IsWithinLimits legs
  create-approved_iff id tenant legs made expires =
      let (to, from) = create-approved id tenant legs made expires in
      let (limits, clear) = Clear-IsWithinLimits legs in (λ a. limits (to a), λ w. from (clear w))

  -- A draft keeps its legs, states reasons exactly where it is rejected, and its combined odds and
  -- its expected value are finite numbers, whatever the legs hold.
  pub create-coherent :
      IsOrdered n
      → (id tenant : Text) (legs : List (CouponLeg Num)) (made expires : ℕ)
      → let d = create n id tenant legs made expires in
        (d.legs ≡ legs)
        × ((d.rejection_reasons ≡ none) ↔ (d.risk_decision ≡ approved))
        × ((d.rejection_reasons ≡ none)
            ⊎ (d.rejection_reasons ≡ some (rejection_reasons_of n legs)))
        × (is_finite d.combined_decimal_odds ≡ true)
        × (is_finite d.expected_value ≡ true)
  unfolding create
  create-coherent o id tenant legs made expires = ground (arith, o.one_finite, o.zero_finite)

IsPlain-occurs :
    (xs : List Text) (s : Text)
    → All (λ x. member x inherited ≡ true) xs
    → IsPlain s
    → count_of s xs ≡ 0
IsPlain-occurs [] s h p = ground arith
IsPlain-occurs (x ∷ xs) s h p = elim (Bool-cases (text_eq x s)) [
  | inl same ↦ absurd (ground (arith, ap (λ t. member t inherited) ((text_eq_iff x s).0 same)))
  | inr other ↦ rw other (IsPlain-occurs xs s h.1 p)
]

-- The concentration test is blind to names that every object inherits: however many legs have a
-- sport or a competition named, for example, "constructor", it does not fire.
pub concentrated-inherited :
    (xs : List Text) → All (λ x. member x inherited ≡ true) xs → concentrated xs ≡ false
concentrated-inherited xs h =
    IsSpread-concentrated xs
      (λ s plain. let zero_times = IsPlain-occurs xs s h plain in omega arith)
