-- ===== src/Analysis/Prediction.antt =====
-- The prediction value (src/analysis/domain/prediction-value.ts) and the deterministic model
-- (src/analysis/infrastructure/models/deterministic-prediction-model.ts).
pub mod Laws
use bet_advise.Base.{Bool, ◌||◌, not, List, [], ◌∷◌, if◌then◌else◌}
use bet_advise.Base.Exec.{Exec, ok, ◌>>◌, throw_if}
use bet_advise.Base.Number.{Arithmetic}

pub record PredictionValue (Num : Type 0) : Type 0 where
  pub raw_model_probability : Num
  pub calibrated_probability : Num
  pub market_implied_probability : Num
  pub no_vig_market_probability : Num
  pub probability_lower_bound : Num
  pub probability_upper_bound : Num
  pub model_confidence : Num
  pub data_quality_score : Num

-- The name that `validateProb` puts in its message.
pub data Field : Type 0 where
  raw_model calibrated market_implied no_vig_market confidence data_quality : Field

pub data PredictionError : Type 0 where
  invalid_probability : Field → PredictionError
  invalid_bounds : PredictionError

module _ (n : Arithmetic) where
  open n use {Num, decimal, is_finite, is_truthy, lt, sub, add, mul, div}

  abbrev validate_prob : Num → Field → Exec PredictionError (Unit {0})
  validate_prob value name =
      throw_if (not (is_finite value) || lt value (decimal 0 0) || lt (decimal 1 0) value)
        (invalid_probability name)

  -- The constructor: each probability in turn, then the bounds.
  unfoldable pub new_prediction : PredictionValue Num → Exec PredictionError (PredictionValue Num)
  new_prediction p = do
    validate_prob p.raw_model_probability raw_model
    validate_prob p.calibrated_probability calibrated
    validate_prob p.market_implied_probability market_implied
    validate_prob p.no_vig_market_probability no_vig_market
    validate_prob p.model_confidence confidence
    validate_prob p.data_quality_score data_quality
    throw_if
        (not (is_finite p.probability_lower_bound)
          || not (is_finite p.probability_upper_bound)
          || lt p.probability_lower_bound (decimal 0 0)
          || lt p.probability_upper_bound p.probability_lower_bound
          || lt (decimal 1 0) p.probability_upper_bound)
        invalid_bounds
    ok p

  -- `Math.max` and `Math.min` of numbers that are not NaN.
  abbrev max_num : Num → Num → Num
  max_num a b = if lt a b then b else a

  abbrev min_num : Num → Num → Num
  min_num a b = if lt b a then b else a

  -- `odds[0] ? 1 / odds[0] : 0.5`; a missing element is `undefined`, which is not truthy.
  implied : List Num → Num
  implied [] = decimal 5 1
  implied (o ∷ _) = if is_truthy o then div (decimal 1 0) o else decimal 5 1

  -- `DeterministicPredictionModel.predict`: the features are not read.
  unfoldable pub predict : Num → List Num → Exec PredictionError (PredictionValue Num)
  unfolding implied new_prediction
  predict default_prob odds =
      let calibrated_value = mul default_prob (decimal 98 2) in
      let market = implied odds in
      new_prediction (record {
        raw_model_probability = default_prob;
        calibrated_probability = calibrated_value;
        market_implied_probability = market;
        no_vig_market_probability = market;
        probability_lower_bound = max_num (decimal 0 0) (sub calibrated_value (decimal 5 2));
        probability_upper_bound = min_num (decimal 1 0) (add calibrated_value (decimal 5 2));
        model_confidence = decimal 9 1;
        data_quality_score = decimal 1 0;
      })
