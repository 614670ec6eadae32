-- ===== src/Api/Matches.antt =====
-- The controller of matches: src/matches/interfaces/http/matches.controller.ts and its dto.
pub mod Owned
use bet_advise.Base.{ℕ, Bool, true, false, not, Option, none, some, List, [], ◌∷◌, if◌then◌else◌}
use bet_advise.Base.Exec.{Exec, ok, throw, ◌>>=◌, ◌>>◌, throw_if}
use bet_advise.Base.Text.{Text, codes}
use bet_advise.Audit.{Writing}
use bet_advise.Auth.Guards.{Request}
use bet_advise.Tenancy.{Store}
use bet_advise.Tenancy.Middleware.{HttpRequest, Passed}
use bet_advise.Matches.{Match}
use bet_advise.Matches.Storage.{Save}
use bet_advise.Matches.Handlers.{
  CreateMatchCommand, World, HandlerError, create_match, get_match, list_matches,
}
use bet_advise.Api.{
  Route, Verifiers, Refusal, bad_request, Field, required_text, optional_text, admit, map_error,
}

-- The body of `POST matches`; `strange` says that it has a property that the dto has not.
pub record CreateMatchBody : Type 0 where
  pub home_team : Field
  pub away_team : Field
  pub kickoff_at : Field
  pub external_id : Field
  pub strange : Bool

-- A call of the controller.
pub data MatchesCall : Type 0 where
  post : CreateMatchBody → MatchesCall
  get_all : MatchesCall
  get_one : Text → MatchesCall

pub data Failure : Type 0 where
  refused : Refusal → Failure
  failed : HandlerError → Failure

-- What a call gets from outside: `@IsDateString()` and `new Date(…)` on texts, the repository's
-- `save`, and what the two writes meet.
pub record Outside : Type 0 where
  pub is_date : Text → Bool
  pub date_of : Text → ℕ
  pub save : Save
  pub writing : Writing
  pub auditing : Writing

-- The validation pipe with `whitelist` and `forbidNonWhitelisted`, then the command.
pub validate : Outside → CreateMatchBody → Exec Refusal CreateMatchCommand
validate o body = do
  throw_if body.strange bad_request
  home ← required_text body.home_team
  away ← required_text body.away_team
  kickoff ← required_text body.kickoff_at
  throw_if (not (o.is_date kickoff)) bad_request
  external ← optional_text body.external_id
  ok (record {
    home_team = home;
    away_team = away;
    kickoff_at = o.date_of kickoff;
    external_id = external;
  })

abbrev pub permissions_of : MatchesCall → List Text
permissions_of (post body) = codes "matches:write" ∷ []
permissions_of get_all = codes "matches:read" ∷ []
permissions_of (get_one id) = codes "matches:read" ∷ []

unfoldable pub route_of : MatchesCall → Route
route_of call = record {
  is_public = false;
  permissions = some (permissions_of call);
  own_jwt_guard = true;
  own_permissions_guard = true;
}

pub one : Exec HandlerError Match → Exec Failure (List Match)
one (throw e) = throw (failed e)
one (ok m) = ok (m ∷ [])

pub many : Exec HandlerError (List Match) → Exec Failure (List Match)
many (throw e) = throw (failed e)
many (ok ms) = ok ms

pub post_match :
    Outside → Store → World → Exec Refusal CreateMatchCommand → World × Exec Failure (List Match)
unfolding one
post_match o store world (throw e) = (world, throw (refused e))
post_match o store world (ok command) =
    let (world', result) = create_match o.save o.writing o.auditing store command world in
    (world', one result)

-- The body of a call, in the tenant context of the request: the world after it, and the matches
-- that it returns.
pub handle : Outside → Store → World → MatchesCall → World × Exec Failure (List Match)
unfolding validate one many post_match
handle o store world (post body) = post_match o store world (validate o body)
handle o store world get_all = (world, many (list_matches store world))
handle o store world (get_one id) = (world, one (get_match store id world))

-- A request to the controller.
unfoldable pub serve_matches :
    Verifiers → Outside → HttpRequest → MatchesCall → World → World × Exec Failure (List Match)
unfolding handle route_of
serve_matches v o req call world = elim (admit v (route_of call) req) [
  | throw e ↦ (world, throw (refused e))
  | ok (passed, request) ↦ handle o passed.store world call
]
