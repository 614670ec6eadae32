-- ===== src/Odds.antt =====
-- The odds quote: src/odds/domain/odds-quote.entity.ts.
pub mod Laws
use bet_advise.Base.{ℕ, Bool, ◌||◌, not, Option, ltb}
use bet_advise.Base.Exec.{Exec, ok, ◌>>◌, throw_if}
use bet_advise.Base.Number.{Arithmetic}
use bet_advise.Base.Text.{Text, is_empty}

pub record OddsQuote (Num : Type 0) : Type 0 where
  pub id : Text
  pub tenant_id : Text
  pub provider_id : Text
  pub bookmaker_id : Text
  pub event_id : Text
  pub market_id : Text
  pub outcome_id : Text
  pub decimal_odds : Num
  pub captured_at : ℕ
  pub received_at : ℕ
  pub is_suspended : Bool
  pub stale : Bool
  pub stale_reason : Option Text

pub data QuoteError : Type 0 where
  invalid_odds incoherent_times missing_identifier : QuoteError

module _ (n : Arithmetic) where
  open n use {Num, decimal, is_finite, le}

  -- The constructor: its three checks, then the object.
  unfoldable pub new_quote : OddsQuote Num → Exec QuoteError (OddsQuote Num)
  new_quote q = do
    throw_if (le q.decimal_odds (decimal 1 0) || not (is_finite q.decimal_odds)) invalid_odds
    throw_if (ltb q.received_at q.captured_at) incoherent_times
    throw_if (is_empty q.event_id || is_empty q.market_id || is_empty q.outcome_id)
        missing_identifier
    ok q

  -- `OddsQuote.create`: it passes its arguments on to the constructor.
  unfoldable pub create :
      (id tenant_id provider_id bookmaker_id event_id market_id outcome_id : Text)
      → Num
      → (captured_at received_at : ℕ) (is_suspended stale : Bool) (stale_reason : Option Text)
      → Exec QuoteError (OddsQuote Num)
  unfolding new_quote
  create id tenant_id provider_id bookmaker_id event_id market_id outcome_id odds captured received
        suspended stale reason =
      new_quote (record {
        id = id;
        tenant_id = tenant_id;
        provider_id = provider_id;
        bookmaker_id = bookmaker_id;
        event_id = event_id;
        market_id = market_id;
        outcome_id = outcome_id;
        decimal_odds = odds;
        captured_at = captured;
        received_at = received;
        is_suspended = suspended;
        stale = stale;
        stale_reason = reason;
      })
