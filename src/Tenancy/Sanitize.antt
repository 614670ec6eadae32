-- ===== src/Tenancy/Sanitize.antt =====
-- What the clean-up of a tenant identifier guarantees.
use bet_advise.Base.{
  ℕ, ◌≡◌, refl, sym, ap, ◌∙◌, inl, inr, true, ◌&&◌, [], ◌∷◌, ◌++◌, filter, filter-append, All,
  if◌then◌else◌, Bool-cases, &&_eq_true, arith,
}
use bet_advise.Base.Exec.{ok, throw}
use bet_advise.Base.Text.{Text, is_empty, is_empty-nil}
use bet_advise.Tenancy.{
  is_space, trim_start, trim_end, trim, lower, to_lower_case, is_allowed, sanitize,
  invalid_identifier, run, get_tenant_id,
}

space-lower : (c : ℕ) → is_space c ≡ true → filter is_allowed (lower c) ≡ []
unfolding lower
space-lower c h = ground arith

-- The same without the trimming.
abbrev clean : Text → Text
clean s = filter is_allowed (to_lower_case s)

clean-cons : (c : ℕ) (s : Text) → clean (c ∷ s) ≡ filter is_allowed (lower c) ++ clean s
unfolding to_lower_case
clean-cons c s = filter-append is_allowed (lower c) (to_lower_case s)

clean-trim_start : (s : Text) → clean (trim_start s) ≡ clean s
unfolding trim_start
clean-trim_start [] = refl
clean-trim_start (c ∷ s) = elim (Bool-cases (is_space c)) [
  | inl space ↦ rw (space, clean-cons c s, space-lower c space) (clean-trim_start s)
  | inr other ↦ rw other
]

clean-trim_end : (s : Text) → clean (trim_end s) ≡ clean s
unfolding trim_end to_lower_case
clean-trim_end [] = refl
clean-trim_end (c ∷ s) = elim (Bool-cases (is_space c && is_empty (trim_end s))) [
  | inl both ↦
      let (space, gone) = &&_eq_true _ _ both in
      let rest : clean s ≡ [] =
        sym (clean-trim_end s) ∙ ap clean (is_empty-nil (trim_end s) gone) in
      rw (both, clean-cons c s, space-lower c space, rest)
  | inr kept ↦
      rw (kept, clean-cons c (trim_end s), clean-cons c s)
        (ap (λ t. filter is_allowed (lower c) ++ t) (clean-trim_end s))
]

-- Trimming first makes no difference.
pub sanitize-clean : (s : Text) → sanitize s ≡ filter is_allowed (to_lower_case s)
unfolding sanitize trim
sanitize-clean s = clean-trim_end (trim_start s) ∙ clean-trim_start s

All-filter : (s : Text) → All (λ c. is_allowed c ≡ true) (filter is_allowed s)
All-filter [] = tt
All-filter (c ∷ s) = elim (Bool-cases (is_allowed c)) [
  | inl good ↦ rw good (good, All-filter s)
  | inr bad ↦ rw bad (All-filter s)
]

lower_of_allowed : (c : ℕ) → is_allowed c ≡ true → lower c ≡ c ∷ []
unfolding lower
lower_of_allowed c h = ground arith

clean_of_allowed : (s : Text) → All (λ c. is_allowed c ≡ true) s → clean s ≡ s
unfolding to_lower_case
clean_of_allowed [] h = refl
clean_of_allowed (c ∷ s) (good, h) =
    rw (lower_of_allowed c good) (rw good (ap (λ t. c ∷ t) (clean_of_allowed s h)))

-- A cleaned identifier holds only a to z, 0 to 9, `_` and `-`, and cleaning it again changes
-- nothing.
pub sanitize_idempotent :
    (s : Text) → All (λ c. is_allowed c ≡ true) (sanitize s) × (sanitize (sanitize s) ≡ sanitize s)
sanitize_idempotent s =
    let good : All (λ c. is_allowed c ≡ true) (sanitize s) =
      rw (sanitize-clean s) (All-filter (to_lower_case s)) in
    (good, sanitize-clean (sanitize s) ∙ clean_of_allowed (sanitize s) good)

-- A context opened for a tenant that is left something by the cleaning runs its callback with the
-- cleaned tenant, which `getTenantId` then gives; for any other it throws, and runs nothing.
pub run-get_tenant_id :
    (t : Text)
    → run t get_tenant_id
      ≡ (if is_empty (sanitize t) then throw invalid_identifier else ok (ok (sanitize t)))
unfolding run get_tenant_id
run-get_tenant_id t = ground arith
