-- ===== src/Tests/Api.antt =====
-- A request for the matches of its tenant.
use bet_advise.Base.{◌≡◌, refl, true, none, some, [], ◌∷◌, All, Occurs, arith}
use bet_advise.Base.Exec.{ok}
use bet_advise.Base.Text.{Text, codes, includes, member, text_eq}
use bet_advise.Auth.{Claim, Claims, words, principal_of, token_of}
use bet_advise.Auth.Guards.{Request, guard_scopes, jwt_can_activate, permissions_can_activate}
use bet_advise.Tenancy.{to_lower_case, sanitize, run, get_tenant_id}
use bet_advise.Tenancy.Middleware.{
  HttpRequest, Passed, middleware_scopes, is_health, use_middleware,
}
use bet_advise.Matches.{Match}
use bet_advise.Matches.Storage.{to_domain, find_all}
use bet_advise.Matches.Handlers.{World, list_matches}
use bet_advise.Api.{Verifiers, admit}
use bet_advise.Api.Isolation.{tenant_of, IsAdmitted, IsContext, admit-IsContext}
use bet_advise.Api.Matches.{get_all, Outside, permissions_of, route_of, serve_matches}
use bet_advise.Api.Matches.Owned.{serve_matches-owned}
use bet_advise.Tests.Tenancy.{payload, bearer, call}
use bet_advise.Tests.Storage.{row, foreign, insert, writing, empty}

abbrev reader : Claims
reader = record payload {
  scope = Claim.text (codes "matches:read");
  tenant_id = some (codes " T1 ");
}

abbrev verifiers : Verifiers
verifiers = record {
  verify = λ t. some reader;
  check = λ t. ok reader;
  check_again = λ t. ok reader;
}

abbrev outside : Outside
outside = record {
  is_date = λ t. true;
  date_of = λ t. 900;
  save = insert;
  writing = writing;
  auditing = writing;
}

abbrev world : World
world = record empty { matches = row ∷ foreign ∷ [] }

abbrev request : HttpRequest
request = call (codes "/matches")

served : serve_matches verifiers outside request get_all world ≡ (world, ok (to_domain row ∷ []))
unfolding serve_matches admit use_middleware jwt_can_activate permissions_can_activate list_matches
    find_all to_domain get_tenant_id principal_of guard_scopes middleware_scopes words sanitize run
    member text_eq
served = refl

serve_matches-owned_example :
    (header : Text) × (payload : Claims) × (request.authorization ≡ some header)
    × (verifiers.check (token_of header) ≡ ok payload)
    × All (λ perm. Occurs perm (guard_scopes payload.scope payload.scopes)) (permissions_of get_all)
    × All (λ (m : Match). m.tenant_id ≡ tenant_of payload) (to_domain row ∷ [])
unfolding is_health to_lower_case includes
serve_matches-owned_example =
    serve_matches-owned verifiers outside request get_all world world (to_domain row ∷ []) refl
      (λ token p q a b. ground arith) served

-- The middleware cannot verify the token, and the URL mentions health: the context is `public`,
-- while the principal is of the tenant `t1`.
abbrev split_verifiers : Verifiers
split_verifiers = record verifiers { verify = λ t. none }

abbrev health_request : HttpRequest
health_request = call (codes "/matches?q=Health")

abbrev public_passed : Passed
public_passed = record {
  store = some (codes "public");
  principal = none;
  tenant_id = codes "public";
}

abbrev admitted_request : Request
admitted_request = record {
  authorization = some bearer;
  principal = some (principal_of reader (guard_scopes reader.scope reader.scopes));
  tenant_id = some (codes " T1 ");
}

admitted :
    admit split_verifiers (route_of get_all) health_request ≡ ok (public_passed, admitted_request)
unfolding admit route_of use_middleware jwt_can_activate permissions_can_activate principal_of
    guard_scopes words sanitize run member text_eq is_health to_lower_case includes
admitted = refl

some_asked : ¬ (permissions_of get_all ≡ [])
some_asked e = cc

admit-IsContext_example :
    (header : Text) × (payload : Claims) × IsAdmitted split_verifiers health_request public_passed
      (permissions_of get_all)
      header
      payload
    × IsContext health_request payload public_passed
unfolding route_of
admit-IsContext_example =
    admit-IsContext split_verifiers (route_of get_all) health_request public_passed admitted_request
      (permissions_of get_all) (λ token p q a b. ground (arith, a)) refl refl some_asked admitted
