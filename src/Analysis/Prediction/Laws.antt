-- ===== src/Analysis/Prediction/Laws.antt =====
-- What a prediction value that was constructed satisfies.
use bet_advise.Base.{◌≡◌, ◌∙◌, sym, ap, ◌↔◌, true, false, ◌||◌, not, Bool, arith}
use bet_advise.Base.Exec.{ok, throw_if, ◌>>◌, Exec}
use bet_advise.Base.Number.{Arithmetic, IsOrdered}
use bet_advise.Analysis.Prediction.{PredictionValue, new_prediction}

module _ (n : Arithmetic) where
  open n use {Num, decimal, is_finite, lt, le}

  -- A finite number from 0 to 1.
  pub record IsProbability (x : Num) : Type 0 where
    pub finite : is_finite x ≡ true
    pub from_zero : le (decimal 0 0) x ≡ true
    pub to_one : le x (decimal 1 0) ≡ true

  -- Every probability is one, and the bounds are in order within [0, 1].
  pub record IsSound (p : PredictionValue Num) : Type 0 where
    pub raw : IsProbability p.raw_model_probability
    pub calibrated : IsProbability p.calibrated_probability
    pub market : IsProbability p.market_implied_probability
    pub no_vig : IsProbability p.no_vig_market_probability
    pub confidence : IsProbability p.model_confidence
    pub quality : IsProbability p.data_quality_score
    pub lower_finite : is_finite p.probability_lower_bound ≡ true
    pub upper_finite : is_finite p.probability_upper_bound ≡ true
    pub lower_from_zero : le (decimal 0 0) p.probability_lower_bound ≡ true
    pub ordered : le p.probability_lower_bound p.probability_upper_bound ≡ true
    pub upper_to_one : le p.probability_upper_bound (decimal 1 0) ≡ true

  -- The test of `validateProb` is false exactly for a probability.
  abbrev bad_probability : Num → Bool
  bad_probability x = not (is_finite x) || lt x (decimal 0 0) || lt (decimal 1 0) x

  bad_probability_iff : IsOrdered n → (x : Num) → (bad_probability x ≡ false) ↔ IsProbability x
  bad_probability_iff o x =
      ground
        (arith, o.le_total (decimal 0 0) x, o.le_total x (decimal 1 0), o.zero_finite, o.one_finite)

  abbrev bad_bounds : Num → Num → Bool
  bad_bounds l u =
      not (is_finite l) || not (is_finite u) || lt l (decimal 0 0) || lt u l || lt (decimal 1 0) u

  bad_bounds_iff :
      IsOrdered n
      → (l u : Num)
      → (bad_bounds l u ≡ false) ↔ (
          (is_finite l ≡ true)
          × (is_finite u ≡ true)
          × (le (decimal 0 0) l ≡ true)
          × (le l u ≡ true)
          × (le u (decimal 1 0) ≡ true))
  bad_bounds_iff o l u = ground (
    arith,
    o.le_total (decimal 0 0) l,
    o.le_total u (decimal 1 0),
    o.le_total l u,
    o.zero_finite,
    o.one_finite,
  )

  throw_if-ok :
      {E A : Type 0} (c : Bool) (e : E) (m : Exec E A) (a : A)
      → (throw_if c e >> m) ≡ ok a
      → (c ≡ false) × (m ≡ ok a)
  throw_if-ok c e m a h = ground arith

  pub new_prediction-IsSound :
      IsOrdered n → (p r : PredictionValue Num) → new_prediction n p ≡ ok r → IsSound p × (r ≡ p)
  unfolding new_prediction
  new_prediction-IsSound o p r h =
      let (c1, h1) = throw_if-ok _ _ _ _ h in
      let (c2, h2) = throw_if-ok _ _ _ _ h1 in
      let (c3, h3) = throw_if-ok _ _ _ _ h2 in
      let (c4, h4) = throw_if-ok _ _ _ _ h3 in
      let (c5, h5) = throw_if-ok _ _ _ _ h4 in
      let (c6, h6) = throw_if-ok _ _ _ _ h5 in
      let (c7, h7) = throw_if-ok _ _ _ _ h6 in
      let bounds = (bad_bounds_iff o _ _).0 c7 in
      (
        record {
          raw = (bad_probability_iff o _).0 c1;
          calibrated = (bad_probability_iff o _).0 c2;
          market = (bad_probability_iff o _).0 c3;
          no_vig = (bad_probability_iff o _).0 c4;
          confidence = (bad_probability_iff o _).0 c5;
          quality = (bad_probability_iff o _).0 c6;
          lower_finite = bounds.0;
          upper_finite = bounds.1;
          lower_from_zero = bounds.2;
          ordered = bounds.3;
          upper_to_one = bounds.4;
        },
        ground arith,
      )

  sound-new_prediction :
      IsOrdered n → (p : PredictionValue Num) → IsSound p → new_prediction n p ≡ ok p
  unfolding new_prediction
  sound-new_prediction o p s = rw (
    (bad_probability_iff o p.raw_model_probability).1 s.raw,
    (bad_probability_iff o p.calibrated_probability).1 s.calibrated,
    (bad_probability_iff o p.market_implied_probability).1 s.market,
    (bad_probability_iff o p.no_vig_market_probability).1 s.no_vig,
    (bad_probability_iff o p.model_confidence).1 s.confidence,
    (bad_probability_iff o p.data_quality_score).1 s.quality,
    (bad_bounds_iff o p.probability_lower_bound p.probability_upper_bound).1
        (s.lower_finite, s.upper_finite, s.lower_from_zero, s.ordered, s.upper_to_one),
  )

  -- Where finite numbers are totally ordered, the constructor returns exactly for probabilities in
  -- [0, 1] with ordered bounds in [0, 1], and returns what it was given; NaN and infinities throw.
  pub new_prediction_iff :
      IsOrdered n
      → (p r : PredictionValue Num) → (new_prediction n p ≡ ok r) ↔ (IsSound p × (r ≡ p))
  new_prediction_iff o p r =
      (new_prediction-IsSound o p r, λ h. sound-new_prediction o p h.0 ∙ ap ok (sym h.1))
