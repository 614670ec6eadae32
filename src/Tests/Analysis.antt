-- ===== src/Tests/Analysis.antt =====
-- A quote, a prediction, a two-way market and a list of features.
use bet_advise.Base.{ℕ, ◌≡◌, refl, ◌↔◌, false, none}
use bet_advise.Base.Exec.{ok, throw}
use bet_advise.Base.Text.{codes}
use bet_advise.Odds.{OddsQuote, invalid_odds, new_quote}
use bet_advise.Odds.Laws.{IsSound, new_quote_iff}
use bet_advise.Analysis.Prediction.{PredictionValue}
use bet_advise.Analysis.Features.{Feature}
use bet_advise.Tests.Fixed.{Fixed, nan, pos, fixed, fixed-IsOrdered}

abbrev pub home_quote : OddsQuote Fixed
home_quote = record {
  id = codes "quote-123";
  tenant_id = codes "tenant-123";
  provider_id = codes "provider-1";
  bookmaker_id = codes "bookmaker-1";
  event_id = codes "match-456";
  market_id = codes "match_winner";
  outcome_id = codes "home";
  decimal_odds = pos 19000;
  captured_at = 95000;
  received_at = 99000;
  is_suspended = false;
  stale = false;
  stale_reason = none;
}

nan_odds_throw : new_quote fixed (record home_quote { decimal_odds = nan }) ≡ throw invalid_odds
unfolding new_quote
nan_odds_throw = refl

new_quote_iff_example :
    (new_quote fixed home_quote ≡ ok home_quote)
    ↔ (IsSound fixed home_quote × (home_quote ≡ home_quote))
new_quote_iff_example = new_quote_iff fixed fixed-IsOrdered home_quote home_quote

abbrev pub strong : PredictionValue Fixed
strong = record {
  raw_model_probability = pos 6000;
  calibrated_probability = pos 5800;
  market_implied_probability = pos 5000;
  no_vig_market_probability = pos 5000;
  probability_lower_bound = pos 5500;
  probability_upper_bound = pos 6100;
  model_confidence = pos 9000;
  data_quality_score = pos 9500;
}

abbrev feature : ℕ → Feature Fixed
feature at = record {
  event_id = codes "match-456";
  feature_name = codes "form";
  value = pos 5000;
  observed_at = 10;
  available_at = at;
  source_provider = codes "provider-1";
}
