-- ===== src/Advice/Contract.antt =====
-- The advice module for other modules: src/advice/interfaces/module-api/advice-module.api.ts.
use bet_advise.Base.{◌≡◌, refl, inl, inr, Bool-cases, ℕ, Option, none, some, List, [], map}
use bet_advise.Base.Exec.{Exec, ok, throw}
use bet_advise.Base.Number.{Arithmetic}
use bet_advise.Base.Text.{Text, is_empty}
use bet_advise.Tenancy.{Store, get_tenant_id}
use bet_advise.Advice.{AdviceDecision, Rationale, Advice}
use bet_advise.Advice.Repository.{RepositoryError}
use bet_advise.Advice.Repository.Queries.{find_where, find_all, find_by_match_id}
use bet_advise.Advice.Handlers.{World, list_advice}

-- `AdviceContractDto`
pub record AdviceContract (Num : Type 0) : Type 0 where
  pub id : Text
  pub match_id : Text
  pub market : Text
  pub selection : Text
  pub calibrated_probability : Option Num
  pub rationale : Rationale Num
  pub decision : AdviceDecision

module _ (n : Arithmetic) where
  open n use {Num}

  contract_of : Advice Num → AdviceContract Num
  contract_of a = record {
    id = a.id;
    match_id = a.match_id;
    market = a.market;
    selection = a.selection;
    calibrated_probability = a.calibrated_probability;
    rationale = a.rationale;
    decision = a.decision;
  }

  -- What throws comes to no advice.
  contracts_or_none : Exec RepositoryError (List (Advice Num)) → List (AdviceContract Num)
  unfolding contract_of
  contracts_or_none (throw e) = []
  contracts_or_none (ok advices) = map contract_of advices

  -- `getAdviceByMatchId`
  unfoldable pub get_advice_by_match_id :
      (Text → Num) → ℕ → Store → Text → World Num → List (AdviceContract Num)
  unfolding contracts_or_none
  get_advice_by_match_id number_of now store match_id world =
      contracts_or_none (list_advice n number_of now store (some match_id) world)

  -- Outside a tenant context the answer is that there is no advice, whatever is stored.
  pub get_advice_by_match_id-outside :
      (number_of : Text → Num) (now : ℕ) (match_id : Text) (world : World Num)
      → get_advice_by_match_id number_of now none match_id world ≡ []
  unfolding get_advice_by_match_id contracts_or_none list_advice find_all find_by_match_id
      find_where get_tenant_id
  get_advice_by_match_id-outside number_of now match_id world =
      elim (Bool-cases (is_empty match_id)) [
        | inl empty ↦ rw empty refl
        | inr filled ↦ rw filled refl
      ]
