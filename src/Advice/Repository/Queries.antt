-- ===== src/Advice/Repository/Queries.antt =====
-- The queries of the advice repository: src/advice/infrastructure/typeorm-advice.repository.ts.
pub mod Owned
use bet_advise.Base.{
  ℕ, Bool, true, ◌&&◌, Option, none, some, List, [], ◌∷◌, map, filter, find, leb, if◌then◌else◌,
}
use bet_advise.Base.Exec.{Exec, ok, throw}
use bet_advise.Base.Number.{Arithmetic}
use bet_advise.Base.Text.{Text, text_eq}
use bet_advise.Tenancy.{Store, get_tenant_id}
use bet_advise.Advice.{Advice}
use bet_advise.Advice.Repository.{AdviceEntity, RepositoryError, no_tenant, to_domain}

module _ (n : Arithmetic) where
  open n use {Num}

  -- The rows of the tenant that pass a test, in the order `createdAt: 'DESC'`.
  pub insert_by_age : AdviceEntity Num → List (AdviceEntity Num) → List (AdviceEntity Num)
  insert_by_age r [] = r ∷ []
  insert_by_age r (s ∷ rows) =
      if leb s.created_at r.created_at then r ∷ s ∷ rows else s ∷ insert_by_age r rows

  pub by_age : List (AdviceEntity Num) → List (AdviceEntity Num)
  unfolding insert_by_age
  by_age [] = []
  by_age (r ∷ rows) = insert_by_age r (by_age rows)

  unfoldable pub find_where :
      (Text → Num)
      → ℕ
      → Store
      → (AdviceEntity Num → Bool)
      → List (AdviceEntity Num)
      → Exec RepositoryError (List (Advice Num))
  unfolding by_age to_domain
  find_where number_of now store test rows = elim (get_tenant_id store) [
    | throw e ↦ throw (no_tenant e)
    | ok tenant ↦ ok (
        map (to_domain n number_of now)
          (by_age (filter (λ r. test r && text_eq r.tenant_id tenant) rows)))
  ]

  -- `findByMatchId` and `findAll`.
  unfoldable pub find_by_match_id :
      (Text → Num)
      → ℕ
      → Store
      → Text
      → List (AdviceEntity Num)
      → Exec RepositoryError (List (Advice Num))
  unfolding find_where
  find_by_match_id number_of now store match_id rows =
      find_where number_of now store (λ r. text_eq r.match_id match_id) rows

  unfoldable pub find_all :
      (Text → Num) → ℕ → Store → List (AdviceEntity Num) → Exec RepositoryError (List (Advice Num))
  unfolding find_where
  find_all number_of now store rows = find_where number_of now store (λ r. true) rows

  -- `findById`
  unfoldable pub find_by_id :
      (Text → Num)
      → ℕ
      → Store
      → Text
      → List (AdviceEntity Num)
      → Exec RepositoryError (Option (Advice Num))
  unfolding to_domain
  find_by_id number_of now store id rows = elim (get_tenant_id store) [
    | throw e ↦ throw (no_tenant e)
    | ok tenant ↦ elim (find (λ r. text_eq r.id id && text_eq r.tenant_id tenant) rows) [
      | none ↦ ok none
      | some entity ↦ ok (some (to_domain n number_of now entity))
    ]
  ]
