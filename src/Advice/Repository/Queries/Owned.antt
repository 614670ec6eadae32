-- ===== src/Advice/Repository/Queries/Owned.antt =====
-- The queries of src/advice/infrastructure/typeorm-advice.repository.ts find advice of the tenant
-- alone.
use bet_advise.Base.{
  ℕ, ◌≡◌, ap, ◌∙◌, sym, inl, inr, Bool, true, false, ◌&&◌, some, List, [], ◌∷◌, map, filter, find,
  leb, All, Bool-cases, Option-cases, arith,
}
use bet_advise.Base.Exec.{ok}
use bet_advise.Base.Number.{Arithmetic}
use bet_advise.Base.Text.{Text, is_empty, text_eq, text_eq_iff}
use bet_advise.Tenancy.{get_tenant_id}
use bet_advise.Advice.{Advice}
use bet_advise.Advice.Repository.{AdviceEntity, to_domain}
use bet_advise.Advice.Repository.Queries.{insert_by_age, by_age, find_where, find_by_id}

module _ (n : Arithmetic) where
  open n use {Num}

  abbrev OfTenant : Text → List (AdviceEntity Num) → Type 0
  OfTenant tenant rows = All (λ (r : AdviceEntity Num). r.tenant_id ≡ tenant) rows

  insert_by_age-OfTenant :
      (tenant : Text) (r : AdviceEntity Num) (rows : List (AdviceEntity Num))
      → r.tenant_id ≡ tenant
      → OfTenant tenant rows
      → OfTenant tenant (insert_by_age n r rows)
  unfolding insert_by_age
  insert_by_age-OfTenant tenant r [] own h = (own, tt)
  insert_by_age-OfTenant tenant r (s ∷ rows) own (p, h) =
      elim (Bool-cases (leb s.created_at r.created_at)) [
        | inl older ↦ rw older (own, (p, h))
        | inr newer ↦ rw newer (p, insert_by_age-OfTenant tenant r rows own h)
      ]

  by_age-OfTenant :
      (tenant : Text) (rows : List (AdviceEntity Num))
      → OfTenant tenant rows
      → OfTenant tenant (by_age n rows)
  unfolding by_age
  by_age-OfTenant tenant [] h = tt
  by_age-OfTenant tenant (r ∷ rows) (own, h) =
      insert_by_age-OfTenant tenant r (by_age n rows) own (by_age-OfTenant tenant rows h)

  filter-OfTenant :
      (tenant : Text) (test : AdviceEntity Num → Bool) (rows : List (AdviceEntity Num))
      → OfTenant tenant (filter (λ r. test r && text_eq r.tenant_id tenant) rows)
  filter-OfTenant tenant test [] = tt
  filter-OfTenant tenant test (r ∷ rows) =
      elim (Bool-cases (test r && text_eq r.tenant_id tenant)) [
        | inl taken ↦ rw taken (own taken, filter-OfTenant tenant test rows)
        | inr left ↦ rw left (filter-OfTenant tenant test rows)
      ]
    where
      own : (test r && text_eq r.tenant_id tenant) ≡ true → r.tenant_id ≡ tenant
      own taken = ground (arith, text_eq_iff r.tenant_id tenant)

  -- Each advice is of the tenant.
  abbrev pub IsOwned : Text → List (Advice Num) → Type 0
  IsOwned tenant found = All (λ (a : Advice Num). a.tenant_id ≡ tenant) found

  map-IsOwned :
      (number_of : Text → Num) (now : ℕ) (tenant : Text) (rows : List (AdviceEntity Num))
      → OfTenant tenant rows
      → IsOwned tenant (map (to_domain n number_of now) rows)
  unfolding to_domain
  map-IsOwned number_of now tenant [] h = tt
  map-IsOwned number_of now tenant (r ∷ rows) (own, h) =
      (own, map-IsOwned number_of now tenant rows h)

  pub find_where-IsOwned :
      (number_of : Text → Num) (now : ℕ) (tenant : Text) (test : AdviceEntity Num → Bool)
      (rows : List (AdviceEntity Num)) (found : List (Advice Num))
      → is_empty tenant ≡ false
      → find_where n number_of now (some tenant) test rows ≡ ok found
      → IsOwned tenant found
  unfolding find_where get_tenant_id
  find_where-IsOwned number_of now tenant test rows found filled h =
      let same : map (to_domain n number_of now)
            (by_age n (filter (λ r. test r && text_eq r.tenant_id tenant) rows))
          ≡ found =
        ground arith in
      rw (← same) (
        map-IsOwned number_of now tenant _
          (by_age-OfTenant tenant _ (filter-OfTenant tenant test rows)))

  find-own :
      (id tenant : Text) (rows : List (AdviceEntity Num)) (r : AdviceEntity Num)
      → find (λ s. text_eq s.id id && text_eq s.tenant_id tenant) rows ≡ some r
      → r.tenant_id ≡ tenant
  find-own id tenant [] r h = ground arith
  find-own id tenant (s ∷ rows) r h =
      elim (Bool-cases (text_eq s.id id && text_eq s.tenant_id tenant)) [
        | inl taken ↦ let same : s ≡ r = ground arith in rw (← same) (own taken)
        | inr left ↦ find-own id tenant rows r (ground arith)
      ]
    where
      own : (text_eq s.id id && text_eq s.tenant_id tenant) ≡ true → s.tenant_id ≡ tenant
      own taken = ground (arith, text_eq_iff s.tenant_id tenant)

  pub find_by_id-own :
      (number_of : Text → Num) (now : ℕ) (tenant id : Text) (rows : List (AdviceEntity Num))
      (a : Advice Num)
      → is_empty tenant ≡ false
      → find_by_id n number_of now (some tenant) id rows ≡ ok (some a)
      → a.tenant_id ≡ tenant
  unfolding find_by_id get_tenant_id to_domain
  find_by_id-own number_of now tenant id rows a filled h =
      elim (Option-cases (find (λ r. text_eq r.id id && text_eq r.tenant_id tenant) rows)) [
        | inl missing ↦ ground arith
        | inr (r, there) ↦
            let own = find-own id tenant rows r there in
            let same : to_domain n number_of now r ≡ a = ground arith in
            ap (λ (x : Advice Num). x.tenant_id) (sym same) ∙ own
      ]
