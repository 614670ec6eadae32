-- ===== src/Advice/Evaluate.antt =====
-- `Advice.create` and `Advice.evaluate`: the gates in the order of the source.
use bet_advise.Base.{ℕ, not, Option, none, some, if◌then◌else◌}
use bet_advise.Base.Number.{Arithmetic}
use bet_advise.Base.Text.{Text, codes, text_or}
use bet_advise.Matches.{scheduled, status_eq}
use bet_advise.Odds.{OddsQuote}
use bet_advise.Analysis.Prediction.{PredictionValue}
use bet_advise.Advice.{
  AdviceDecision, recommended, rejected, abstained, RejectionReason, no_production_data_provider,
  insufficient_verified_data, risk_policy_rejected, no_approved_model, no_valid_odds,
  suspended_market, stale_odds, uncertainty_too_high, edge_below_threshold,
  expected_value_below_threshold, Rationale, no_provider, match_not_found, match_status, no_model,
  no_quote, market_suspended, quote_stale, low_quality, uncertain, low_edge, low_expected_value,
  high_confidence, Advice, MatchRef, EvaluateParams,
}

abbrev pub unknown : Text
unknown = codes "unknown"

abbrev pub model_v1 : Text
model_v1 = codes "model_v1"

-- `match?.id`
abbrev pub id_of : Option MatchRef → Option Text
id_of none = none
id_of (some m) = some m.id

module _ {Num : Type 0} where
  -- `Advice.create`, with the two readings of the clock.
  abbrev pub create :
      (id tenant_id match_id market selection : Text)
      → AdviceDecision
      → Option RejectionReason
      → (expected_value edge calibrated_probability : Option Num)
      → (model_version odds_quote_id : Option Text) → Rationale Num
      → (created_at updated_at : ℕ) → Advice Num
  create id tenant_id match_id market selection decision reason ev edge prob model quote_id
        rationale created updated =
      record {
        id = id;
        tenant_id = tenant_id;
        match_id = match_id;
        market = market;
        selection = selection;
        decision = decision;
        rejection_reason = reason;
        expected_value = ev;
        edge = edge;
        calibrated_probability = prob;
        model_version = model;
        odds_quote_id = quote_id;
        rationale = rationale;
        created_at = created;
        updated_at = updated;
      }

  -- A result of `evaluate`: `create` with the fields that are the same at each return.
  abbrev conclude :
      EvaluateParams Num
      → Text
      → AdviceDecision
      → Option RejectionReason
      → (expected_value edge calibrated_probability : Option Num)
      → (model_version odds_quote_id : Option Text) → Rationale Num
      → Advice Num
  conclude ps match_id decision reason ev edge prob model quote_id rationale =
      create ps.id ps.tenant_id match_id ps.market ps.selection decision reason ev edge prob model
        quote_id rationale ps.created_at ps.updated_at

module _ (n : Arithmetic) where
  open n use {Num, decimal, is_truthy, lt, sub, mul, div}

  -- Gate 7: the edge and the expected value.
  unfoldable pub edge_of : PredictionValue Num → OddsQuote Num → Num
  edge_of p q = sub p.calibrated_probability (div (decimal 1 0) q.decimal_odds)

  unfoldable pub expected_value_of : PredictionValue Num → OddsQuote Num → Num
  expected_value_of p q = sub (mul p.calibrated_probability q.decimal_odds) (decimal 1 0)

  evaluate_value : EvaluateParams Num → MatchRef → PredictionValue Num → OddsQuote Num → Advice Num
  evaluate_value ps m p q =
      let edge = edge_of p q in
      let ev = expected_value_of p q in
      let prob = p.calibrated_probability in
      if lt edge (decimal 3 2)
      then conclude ps m.id rejected (some edge_below_threshold) (some ev) (some edge) (some prob)
          (some model_v1) (some q.id) (low_edge edge)
      else if lt ev (decimal 5 2)
      then conclude ps m.id rejected (some expected_value_below_threshold) (some ev) (some edge)
          (some prob) (some model_v1) (some q.id) (low_expected_value ev)
      else conclude ps m.id recommended none (some ev) (some edge) (some prob) (some model_v1)
          (some q.id) (high_confidence prob ev edge q.decimal_odds)

  unfoldable pub uncertainty_range : PredictionValue Num → Num
  uncertainty_range p = sub p.probability_upper_bound p.probability_lower_bound

  -- Gates 5 and 6: the data quality score, and the width of the bounds.
  evaluate_prediction :
      EvaluateParams Num → MatchRef → PredictionValue Num → OddsQuote Num → Advice Num
  unfolding evaluate_value
  evaluate_prediction ps m p q =
      if lt p.data_quality_score (decimal 7 1)
      then conclude ps m.id abstained (some insufficient_verified_data) none none none
          (some model_v1) (some q.id) (low_quality p.data_quality_score)
      else if lt (decimal 15 2) (uncertainty_range p)
      then conclude ps m.id abstained (some uncertainty_too_high) none none none (some model_v1)
          (some q.id) (uncertain (uncertainty_range p))
      else evaluate_value ps m p q

  -- `prediction.rawModelProbability ? 'model_v1' : 'unknown'`
  unfoldable pub model_name : PredictionValue Num → Text
  model_name p = if is_truthy p.raw_model_probability then model_v1 else unknown

  -- Gate 4: the odds quote.
  evaluate_quote :
      EvaluateParams Num → MatchRef → PredictionValue Num → Option (OddsQuote Num) → Advice Num
  unfolding evaluate_prediction
  evaluate_quote ps m p none =
      conclude ps m.id abstained (some no_valid_odds) none none none (some (model_name p)) none
        no_quote
  evaluate_quote ps m p (some q) =
      if q.is_suspended
      then conclude ps m.id abstained (some suspended_market) none none none (some (model_name p))
          (some q.id) market_suspended
      else if q.stale
      then conclude ps m.id abstained (some stale_odds) none none none (some (model_name p))
          (some q.id) (quote_stale (text_or q.stale_reason unknown))
      else evaluate_prediction ps m p q

  -- Gate 3: `!hasModel || !prediction`.
  evaluate_model : EvaluateParams Num → MatchRef → Option (PredictionValue Num) → Advice Num
  unfolding evaluate_quote
  evaluate_model ps m none =
      conclude ps m.id abstained (some no_approved_model) none none none none none no_model
  evaluate_model ps m (some p) =
      if not ps.has_model
      then conclude ps m.id abstained (some no_approved_model) none none none none none no_model
      else evaluate_quote ps m p ps.quote

  -- Gate 2: the match is there and is scheduled.
  evaluate_match : EvaluateParams Num → Option MatchRef → Advice Num
  unfolding evaluate_model
  evaluate_match ps none =
      conclude ps unknown abstained (some insufficient_verified_data) none none none none none
        match_not_found
  evaluate_match ps (some m) =
      if not (status_eq m.status scheduled)
      then conclude ps m.id rejected (some risk_policy_rejected) none none none none none
          (match_status m.status)
      else evaluate_model ps m ps.prediction

  -- Gate 1: the provider.
  unfoldable pub evaluate : EvaluateParams Num → Advice Num
  unfolding evaluate_match
  evaluate ps =
      if not ps.has_provider
      then conclude ps (text_or (id_of ps.match) unknown) abstained
          (some no_production_data_provider) none none none none none no_provider
      else evaluate_match ps ps.match
