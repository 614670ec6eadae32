-- ===== src/Api/Advices.antt =====
-- The controller of advice: src/advice/interfaces/http/advice.controller.ts and its dto.
pub mod Admitted
pub mod Owned
use bet_advise.Base.{Bool, true, false, Option, some, List, [], ◌∷◌}
use bet_advise.Base.Exec.{Exec, ok, throw, ◌>>◌, throw_if}
use bet_advise.Base.Number.{Arithmetic}
use bet_advise.Base.Text.{Text, codes}
use bet_advise.Tenancy.{Store}
use bet_advise.Tenancy.Middleware.{HttpRequest}
use bet_advise.Advice.{Advice}
use bet_advise.Advice.Repository.{RepositoryError, Services}
use bet_advise.Advice.Handlers.{World, Call, HandlerError, generate_advice, get_advice, list_advice}
use bet_advise.Api.{Route, Verifiers, Refusal, bad_request, Field, required_text, admit}

-- A call of the controller: `POST advice/generate` with the `matchId` of its body and whether the
-- body has other properties, `GET advice` with the `matchId` of its query, and `GET advice/:id`.
pub data AdviceCall : Type 0 where
  generate : Field → Bool → AdviceCall
  get_all : Option Text → AdviceCall
  get_one : Text → AdviceCall

pub data Failure : Type 0 where
  refused : Refusal → Failure
  failed : HandlerError → Failure
  storage_failed : RepositoryError → Failure

abbrev pub permissions_of : AdviceCall → List Text
permissions_of (generate match_id strange) = codes "advice:write" ∷ []
permissions_of (get_all match_id) = codes "advice:read" ∷ []
permissions_of (get_one id) = codes "advice:read" ∷ []

unfoldable pub route_of : AdviceCall → Route
route_of call = record {
  is_public = false;
  permissions = some (permissions_of call);
  own_jwt_guard = true;
  own_permissions_guard = true;
}

-- The validation pipe on the body of `generate`.
unfoldable pub match_id_of : Field → Bool → Exec Refusal Text
match_id_of match_id strange = do throw_if strange bad_request; required_text match_id

module _ (n : Arithmetic) where
  open n use {Num}

  pub one : Exec HandlerError (Advice Num) → Exec Failure (List (Advice Num))
  one (throw e) = throw (failed e)
  one (ok a) = ok (a ∷ [])

  pub many : Exec RepositoryError (List (Advice Num)) → Exec Failure (List (Advice Num))
  many (throw e) = throw (storage_failed e)
  many (ok found) = ok found

  pub generate_for :
      Services Num
      → Call
      → Store
      → World Num
      → Exec Refusal Text
      → World Num × Exec Failure (List (Advice Num))
  unfolding one
  generate_for services call store world (throw e) = (world, throw (refused e))
  generate_for services call store world (ok id) =
      let (world', result) = generate_advice n services call store id world in (world', one result)

  -- The body of a call, with the ids and readings that it gets from outside.
  pub handle :
      Services Num
      → Call
      → Store
      → World Num
      → AdviceCall
      → World Num × Exec Failure (List (Advice Num))
  unfolding many generate_for match_id_of
  handle services call store world (generate match_id strange) =
      generate_for services call store world (match_id_of match_id strange)
  handle services call store world (get_all match_id) =
      (world, many (list_advice n services.number_of call.created_at store match_id world))
  handle services call store world (get_one id) =
      (world, one (get_advice n services.number_of call.created_at store id world))

  -- A request to the controller.
  unfoldable pub serve_advice :
      Verifiers
      → Services Num
      → Call
      → HttpRequest
      → AdviceCall
      → World Num
      → World Num × Exec Failure (List (Advice Num))
  unfolding handle route_of
  serve_advice v services call req advice_call world = elim (admit v (route_of advice_call) req) [
    | throw e ↦ (world, throw (refused e))
    | ok (passed, request) ↦ handle services call passed.store world advice_call
  ]
