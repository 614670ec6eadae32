-- ===== src/Advice/Verdict.antt =====
-- What `evaluate` decides: the first gate that fails, in the order of a table.
use bet_advise.Base.{
  ◌≡◌, ◌≢◌, sym, ap, ◌∙◌, ◌↔◌, Bool, true, false, not, ◌||◌, Option, none, some, List, [], ◌∷◌, All,
  arith, if◌then◌else◌, Option-value,
}
use bet_advise.Base.Number.{Arithmetic}
use bet_advise.Matches.{scheduled, status_eq}
use bet_advise.Odds.{OddsQuote}
use bet_advise.Analysis.Prediction.{PredictionValue}
use bet_advise.Advice.{
  AdviceDecision, recommended, rejected, abstained, expired, RejectionReason,
  no_production_data_provider, insufficient_verified_data, risk_policy_rejected, no_approved_model,
  no_valid_odds, suspended_market, stale_odds, uncertainty_too_high, edge_below_threshold,
  expected_value_below_threshold, MatchRef, EvaluateParams,
}
use bet_advise.Advice.Evaluate.{edge_of, expected_value_of, uncertainty_range, evaluate}

-- A row of the table: whether the gate fails, and what a failure means.
pub record Gate : Type 0 where
  pub fails : Bool
  pub decision : AdviceDecision
  pub reason : RejectionReason

abbrev gate : Bool → AdviceDecision → RejectionReason → Gate
gate f d r = record { fails = f; decision = d; reason = r }

abbrev pub verdict : List Gate → AdviceDecision × Option RejectionReason
verdict [] = (recommended, none)
verdict (g ∷ gs) = if g.fails then (g.decision, some g.reason) else verdict gs

abbrev is_none : {A : Type 0} → Option A → Bool
is_none none = true
is_none (some _) = false

-- A test of a value that is there; what is missing fails an earlier gate.
abbrev on : {A : Type 0} → Option A → (A → Bool) → Bool
on none test = false
on (some a) test = test a

abbrev bind : {A B : Type 0} → Option A → (A → Option B) → Option B
bind none f = none
bind (some a) f = f a

abbrev Passes : Gate → Type 0
Passes g = g.fails ≡ false

verdict-Passes :
    (gs : List Gate)
    → All (λ g. g.decision ≢ recommended) gs
    → (verdict gs).0 ≡ recommended
    → All Passes gs
verdict-Passes [] d h = tt
verdict-Passes (g ∷ gs) d h = ground (arith, verdict-Passes gs d.1)

-- The advice was decided by its numbers: it was recommended, or they were too low.
abbrev pub is_scored : Option RejectionReason → Bool
is_scored none = true
is_scored (some edge_below_threshold) = true
is_scored (some expected_value_below_threshold) = true
is_scored (some _) = false

module _ (n : Arithmetic) where
  open n use {Num, decimal, lt}

  abbrev both : EvaluateParams Num → (PredictionValue Num → OddsQuote Num → Bool) → Bool
  both ps test = on ps.prediction (λ p. on ps.quote (test p))

  -- The policy as a table.
  abbrev pub gates : EvaluateParams Num → List Gate
  gates ps =
      gate (not ps.has_provider) abstained no_production_data_provider
      ∷ gate (is_none ps.match) abstained insufficient_verified_data
      ∷ gate (on ps.match (λ m. not (status_eq m.status scheduled))) rejected risk_policy_rejected
      ∷ gate (not ps.has_model || is_none ps.prediction) abstained no_approved_model
      ∷ gate (is_none ps.quote) abstained no_valid_odds
      ∷ gate (on ps.quote (λ q. q.is_suspended)) abstained suspended_market
      ∷ gate (on ps.quote (λ q. q.stale)) abstained stale_odds
      ∷ gate (on ps.prediction (λ p. lt p.data_quality_score (decimal 7 1))) abstained
          insufficient_verified_data
      ∷ gate (on ps.prediction (λ p. lt (decimal 15 2) (uncertainty_range n p))) abstained
          uncertainty_too_high
      ∷ gate (both ps (λ p q. lt (edge_of n p q) (decimal 3 2))) rejected edge_below_threshold
      ∷ gate (both ps (λ p q. lt (expected_value_of n p q) (decimal 5 2))) rejected
          expected_value_below_threshold
      ∷ []

  -- `evaluate` gives the decision and the reason of the first gate of the table that fails, and
  -- recommends with no reason where none fails.
  pub evaluate-verdict :
      (ps : EvaluateParams Num)
      → ((evaluate n ps).decision, (evaluate n ps).rejection_reason) ≡ verdict (gates ps)
  unfolding evaluate
  evaluate-verdict ps = ground arith

  -- What a recommendation needs.
  pub record IsEligible (ps : EvaluateParams Num) (m : MatchRef) (p : PredictionValue Num)
      (q : OddsQuote Num) : Type 0 where
    pub provider : ps.has_provider ≡ true
    pub model : ps.has_model ≡ true
    pub match : ps.match ≡ some m
    pub prediction : ps.prediction ≡ some p
    pub quote : ps.quote ≡ some q
    pub upcoming : m.status ≡ scheduled
    pub open_market : q.is_suspended ≡ false
    pub fresh : q.stale ≡ false
    pub quality : lt p.data_quality_score (decimal 7 1) ≡ false
    pub certain : lt (decimal 15 2) (uncertainty_range n p) ≡ false
    pub edge : lt (edge_of n p q) (decimal 3 2) ≡ false
    pub expected_value : lt (expected_value_of n p q) (decimal 5 2) ≡ false

  Passes-IsEligible :
      (ps : EvaluateParams Num) (m : MatchRef) (p : PredictionValue Num) (q : OddsQuote Num)
      → ps.match ≡ some m
      → ps.prediction ≡ some p
      → ps.quote ≡ some q
      → All Passes (gates ps)
      → IsEligible ps m p q
  Passes-IsEligible ps m p q found predicted quoted passes = ground arith

  recommended-IsEligible :
      (ps : EvaluateParams Num)
      → (evaluate n ps).decision ≡ recommended
      → (m : MatchRef) × (p : PredictionValue Num) × (q : OddsQuote Num) × IsEligible ps m p q
  recommended-IsEligible ps h =
      let accepted =
        sym (ap (λ (t : AdviceDecision × Option RejectionReason). t.0) (evaluate-verdict ps)) ∙ h in
      let passes = verdict-Passes (gates ps) (ground arith) accepted in
      let (m, found) = Option-value ps.match (ground arith) in
      let (p, predicted) = Option-value ps.prediction (ground arith) in
      let (q, quoted) = Option-value ps.quote (ground arith) in
      (m, p, q, Passes-IsEligible ps m p q found predicted quoted passes)

  -- Advice is recommended exactly when the provider, the model, a scheduled match, a prediction
  -- and a quote are there, the quote is neither suspended nor stale, and none of the four
  -- thresholds (quality, uncertainty, edge, expected value) is missed.
  pub evaluate-recommended_iff :
      (ps : EvaluateParams Num)
      → ((evaluate n ps).decision ≡ recommended)
        ↔ ((m : MatchRef) × (p : PredictionValue Num) × (q : OddsQuote Num) × IsEligible ps m p q)
  unfolding evaluate
  evaluate-recommended_iff ps = (recommended-IsEligible ps, λ (m, p, q, e). ground arith)

  -- What needs the prediction and the quote; nothing where one is missing.
  abbrev score : EvaluateParams Num → (PredictionValue Num → OddsQuote Num → Num) → Option Num
  score ps f = bind ps.prediction (λ p. bind ps.quote (λ q. some (f p q)))

  -- The probability, the edge and the expected value are reported, as they were tested, exactly
  -- with a recommendation and with a rejection on account of the edge or the expected value; all
  -- other advice has none of the three. A reason is given exactly where the decision is not to
  -- recommend, and no evaluation expires.
  pub evaluate-scores :
      (ps : EvaluateParams Num)
      → let a = evaluate n ps in
        let report = λ (x : Option Num). if is_scored a.rejection_reason then x else none in
        (a.edge ≡ report (score ps (edge_of n)))
        × (a.expected_value ≡ report (score ps (expected_value_of n)))
        × (a.calibrated_probability ≡ report (score ps (λ p q. p.calibrated_probability)))
        × ((a.rejection_reason ≡ none) ↔ (a.decision ≡ recommended))
        × (a.decision ≢ expired)
  unfolding evaluate
  evaluate-scores ps = (ground arith, ground arith, ground arith, ground arith, ground arith)
