-- ===== src/Tests/Coupons.antt =====
-- Coupons within and beyond the limits.
use bet_advise.Base.{◌≡◌, refl, ◌↔◌, some, true, List, [], ◌∷◌, All}
use bet_advise.Base.Text.{Text, codes, text_eq, member}
use bet_advise.Coupons.{
  approved, correlated_legs_same_match, CouponLeg, inherited, concentrated, has_repeats, lookup,
  put, rejection_reasons_of, create,
}
use bet_advise.Coupons.Risk.{IsWithinLimits, create-approved_iff}
use bet_advise.Tests.Fixed.{Fixed, pos, fixed}

abbrev leg : Text → Text → CouponLeg Fixed
leg match_id sport = record {
  advice_id = codes "a";
  match_id = match_id;
  sport = sport;
  competition = codes "league";
  market = codes "match_winner";
  selection = codes "home";
  decimal_odds = pos 20000;
  calibrated_probability = pos 6000;
  expected_value = pos 2000;
}

abbrev double : List (CouponLeg Fixed)
double = leg (codes "m1") (codes "soccer") ∷ leg (codes "m2") (codes "tennis") ∷ []

double_approved :
    let d = create fixed (codes "c") (codes "t") double 1 2 in
    (d.risk_decision ≡ approved)
    × (d.combined_decimal_odds ≡ pos 40000)
    × (d.expected_value ≡ pos 2000)
unfolding create rejection_reasons_of has_repeats concentrated text_eq member lookup put
double_approved = (refl, refl, refl)

same_match_rejected :
    (create fixed
      (codes "c")
      (codes "t")
      (leg (codes "m1") (codes "soccer") ∷ leg (codes "m1") (codes "tennis") ∷ [])
      1
      2).rejection_reasons
    ≡ some (correlated_legs_same_match ∷ [])
unfolding create rejection_reasons_of has_repeats concentrated text_eq member lookup put
same_match_rejected = refl

create-approved_iff_example :
    ((create fixed (codes "c") (codes "t") double 1 2).risk_decision ≡ approved)
    ↔ IsWithinLimits fixed double
create-approved_iff_example = create-approved_iff fixed (codes "c") (codes "t") double 1 2

abbrev odd_names : List Text
odd_names =
    codes "constructor"
    ∷ codes "constructor"
    ∷ codes "constructor"
    ∷ codes "constructor"
    ∷ codes "constructor"
    ∷ []

odd_names-inherited : All (λ x. member x inherited ≡ true) odd_names
unfolding member text_eq
odd_names-inherited = (refl, (refl, (refl, (refl, (refl, tt)))))
