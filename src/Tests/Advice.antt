-- ===== src/Tests/Advice.antt =====
-- The inputs of the advice entity's unit tests.
use bet_advise.Base.{◌≡◌, refl, ◌↔◌, true, some}
use bet_advise.Base.Text.{codes}
use bet_advise.Matches.{scheduled}
use bet_advise.Odds.{OddsQuote}
use bet_advise.Analysis.Prediction.{PredictionValue}
use bet_advise.Advice.{recommended, edge_below_threshold, MatchRef, EvaluateParams}
use bet_advise.Advice.Evaluate.{edge_of, expected_value_of, uncertainty_range, evaluate}
use bet_advise.Advice.Verdict.{
  verdict, gates, evaluate-verdict, IsEligible, evaluate-recommended_iff,
}
use bet_advise.Tests.Analysis.{home_quote, strong}
use bet_advise.Tests.Fixed.{Fixed, pos, fixed}

abbrev inputs : PredictionValue Fixed → EvaluateParams Fixed
inputs p = record {
  id = codes "advice-123";
  tenant_id = codes "tenant-123";
  match = some (record { id = codes "match-456"; status = scheduled });
  prediction = some p;
  quote = some home_quote;
  has_provider = true;
  has_model = true;
  market = codes "match_winner";
  selection = codes "home";
  created_at = 100000;
  updated_at = 100000;
}

abbrev weak : PredictionValue Fixed
weak = record strong {
  raw_model_probability = pos 5500;
  calibrated_probability = pos 5400;
  probability_lower_bound = pos 5100;
  probability_upper_bound = pos 5700;
}

strong_recommended : (evaluate fixed (inputs strong)).decision ≡ recommended
unfolding evaluate edge_of expected_value_of uncertainty_range
strong_recommended = refl

weak_rejected : (evaluate fixed (inputs weak)).rejection_reason ≡ some edge_below_threshold
unfolding evaluate edge_of expected_value_of uncertainty_range
weak_rejected = refl

evaluate-verdict_example :
    ((evaluate fixed (inputs weak)).decision, (evaluate fixed (inputs weak)).rejection_reason)
    ≡ verdict (gates fixed (inputs weak))
evaluate-verdict_example = evaluate-verdict fixed (inputs weak)

evaluate-recommended_iff_example : ((evaluate fixed (inputs strong)).decision ≡ recommended) ↔ (
    (m : MatchRef) × (p : PredictionValue Fixed) × (q : OddsQuote Fixed) × IsEligible fixed
      (inputs strong)
      m
      p
      q)
evaluate-recommended_iff_example = evaluate-recommended_iff fixed (inputs strong)
