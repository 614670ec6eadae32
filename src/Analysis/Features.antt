-- ===== src/Analysis/Features.antt =====
-- Point-in-time features: src/analysis/application/feature-provenance.ts.
use bet_advise.Base.{
  ℕ, ◌≤◌, ◌<◌, ◌≡◌, refl, ◌↔◌, List, [], ◌∷◌, ◌++◌, Occurs, Occurs-filter, filter-append, filter,
  leb, All, arith,
}
use bet_advise.Base.Text.{Text}

-- `getTime()` of a date is the date itself: milliseconds since the epoch.
pub record Feature (Num : Type 0) : Type 0 where
  pub event_id : Text
  pub feature_name : Text
  pub value : Num
  pub observed_at : ℕ
  pub available_at : ℕ
  pub source_provider : Text

module _ {Num : Type 0} where
  unfoldable pub filter_point_in_time : List (Feature Num) → ℕ → List (Feature Num)
  filter_point_in_time features cutoff = filter (λ f. leb f.available_at cutoff) features

  filter_point_in_time_iff :
      (fs : List (Feature Num)) (cutoff : ℕ) (f : Feature Num)
      → Occurs f (filter_point_in_time fs cutoff) ↔ (Occurs f fs × (f.available_at ≤ cutoff))
  unfolding filter_point_in_time
  filter_point_in_time_iff fs cutoff f =
      ground (arith, Occurs-filter (λ g. leb g.available_at cutoff) f fs)

  filter-late :
      (late : List (Feature Num)) (cutoff : ℕ)
      → All (λ f. cutoff < f.available_at) late
      → filter (λ f. leb f.available_at cutoff) late ≡ []
  filter-late [] cutoff h = refl
  filter-late (f ∷ late) cutoff h = ground (arith, filter-late late cutoff h.1)

  -- No lookahead: features that become available after the cutoff, wherever they stand in the
  -- list, change nothing of the result, nor its order; and what is kept is exactly the features that
  -- were available at the cutoff.
  pub filter_point_in_time-no_lookahead :
      (early late rest : List (Feature Num)) (cutoff : ℕ)
      → All (λ f. cutoff < f.available_at) late
      → (filter_point_in_time (early ++ (late ++ rest)) cutoff
          ≡ filter_point_in_time (early ++ rest) cutoff)
        × ((f : Feature Num)
            → Occurs f (filter_point_in_time (early ++ rest) cutoff)
              ↔ (Occurs f (early ++ rest) × (f.available_at ≤ cutoff)))
  unfolding filter_point_in_time
  filter_point_in_time-no_lookahead early late rest cutoff h = (
    simp (filter-append, filter-late late cutoff h),
    filter_point_in_time_iff (early ++ rest) cutoff,
  )
