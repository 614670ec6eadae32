-- ===== src/Odds/Laws.antt =====
-- Which quotes the constructor lets through.
use bet_advise.Base.{◌≤◌, ◌≡◌, sym, ap, ◌∙◌, ◌≢◌, ◌↔◌, true, [], arith}
use bet_advise.Base.Exec.{ok}
use bet_advise.Base.Number.{Arithmetic, IsOrdered}
use bet_advise.Odds.{OddsQuote, new_quote}

module _ (n : Arithmetic) where
  open n use {Num, decimal, is_finite, lt}

  -- A quote in order: finite odds above 1, captured no later than received, with the event, the
  -- market and the outcome named.
  pub record IsSound (q : OddsQuote Num) : Type 0 where
    pub odds_finite : is_finite q.decimal_odds ≡ true
    pub odds_above_one : lt (decimal 1 0) q.decimal_odds ≡ true
    pub times : q.captured_at ≤ q.received_at
    pub event : q.event_id ≢ []
    pub market : q.market_id ≢ []
    pub outcome : q.outcome_id ≢ []

  new_quote-same : (q r : OddsQuote Num) → new_quote n q ≡ ok r → r ≡ q
  unfolding new_quote
  new_quote-same q r h = ground arith

  new_quote-IsSound : IsOrdered n → (q r : OddsQuote Num) → new_quote n q ≡ ok r → IsSound q
  unfolding new_quote
  new_quote-IsSound o q r h = record {
    odds_finite = ground arith;
    odds_above_one = ground (arith, o.le_total q.decimal_odds (decimal 1 0), o.one_finite);
    times = ground arith;
    event = ground arith;
    market = ground arith;
    outcome = ground arith;
  }

  sound-new_quote : IsOrdered n → (q : OddsQuote Num) → IsSound q → new_quote n q ≡ ok q
  unfolding new_quote
  sound-new_quote o q s = ground (arith, o.le_total q.decimal_odds (decimal 1 0), o.one_finite)

  -- Where finite numbers are totally ordered, the constructor returns exactly for the quotes in
  -- order, and what it returns is the quote that was asked for; NaN and infinite odds throw.
  pub new_quote_iff :
      IsOrdered n → (q r : OddsQuote Num) → (new_quote n q ≡ ok r) ↔ (IsSound q × (r ≡ q))
  new_quote_iff o q r = (
    λ h. (new_quote-IsSound o q r h, new_quote-same q r h),
    λ h. sound-new_quote o q h.0 ∙ ap ok (sym h.1),
  )
