-- ===== src/Advice.antt =====
-- The advice entity: src/advice/domain/advice.entity.ts.
pub mod Evaluate
pub mod Verdict
pub mod Repository
pub mod Handlers
pub mod Contract
use bet_advise.Base.{ℕ, Bool, Option}
use bet_advise.Base.Text.{Text}
use bet_advise.Matches.{MatchStatus}
use bet_advise.Odds.{OddsQuote}
use bet_advise.Analysis.Prediction.{PredictionValue}

pub data AdviceDecision : Type 0 where
  recommended rejected abstained expired : AdviceDecision

-- The reason codes, which the source writes as string literals.
pub data RejectionReason : Type 0 where
  no_production_data_provider : RejectionReason
  insufficient_verified_data : RejectionReason
  risk_policy_rejected : RejectionReason
  no_approved_model : RejectionReason
  no_valid_odds : RejectionReason
  suspended_market : RejectionReason
  stale_odds : RejectionReason
  uncertainty_too_high : RejectionReason
  edge_below_threshold : RejectionReason
  expected_value_below_threshold : RejectionReason

-- The rationale texts: a constructor for each template, with the values that it prints.
pub data Rationale (Num : Type 0) : Type 0 where
  no_provider : Rationale Num
  match_not_found : Rationale Num
  match_status : MatchStatus → Rationale Num
  no_model : Rationale Num
  no_quote : Rationale Num
  market_suspended : Rationale Num
  quote_stale : Text → Rationale Num
  low_quality : Num → Rationale Num
  uncertain : Num → Rationale Num
  low_edge : Num → Rationale Num
  low_expected_value : Num → Rationale Num
  -- The calibrated probability, the expected value, the edge and the odds.
  high_confidence : Num → Num → Num → Num → Rationale Num

pub record Advice (Num : Type 0) : Type 0 where
  pub id : Text
  pub tenant_id : Text
  pub match_id : Text
  pub market : Text
  pub selection : Text
  pub decision : AdviceDecision
  pub rejection_reason : Option RejectionReason
  pub expected_value : Option Num
  pub edge : Option Num
  pub calibrated_probability : Option Num
  pub model_version : Option Text
  pub odds_quote_id : Option Text
  pub rationale : Rationale Num
  pub created_at : ℕ
  pub updated_at : ℕ

-- The part of a match that `evaluate` reads.
pub record MatchRef : Type 0 where
  pub id : Text
  pub status : MatchStatus

-- `params` of `evaluate`, and what its two calls of `new Date()` read.
pub record EvaluateParams (Num : Type 0) : Type 0 where
  pub id : Text
  pub tenant_id : Text
  pub match : Option MatchRef
  pub prediction : Option (PredictionValue Num)
  pub quote : Option (OddsQuote Num)
  pub has_provider : Bool
  pub has_model : Bool
  pub market : Text
  pub selection : Text
  pub created_at : ℕ
  pub updated_at : ℕ
