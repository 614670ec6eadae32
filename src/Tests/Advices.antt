-- ===== src/Tests/Advices.antt =====
-- A request for the advice of its tenant, where another tenant has advice too.
use bet_advise.Base.{◌≡◌, refl, none, some, [], ◌∷◌, All, Occurs, arith}
use bet_advise.Base.Exec.{ok}
use bet_advise.Base.Text.{Text, codes, includes, member, text_eq}
use bet_advise.Auth.{Claims, words, principal_of, token_of}
use bet_advise.Auth.Guards.{guard_scopes, jwt_can_activate, permissions_can_activate}
use bet_advise.Tenancy.{to_lower_case, sanitize, run, get_tenant_id}
use bet_advise.Tenancy.Middleware.{HttpRequest, middleware_scopes, is_health, use_middleware}
use bet_advise.Advice.{Advice}
use bet_advise.Advice.Repository.{AdviceEntity, to_domain, entity_of}
use bet_advise.Advice.Repository.Queries.{find_where, find_all}
use bet_advise.Advice.Repository.Queries.Owned.{IsOwned}
use bet_advise.Advice.Handlers.{World, list_advice}
use bet_advise.Api.{Verifiers, admit}
use bet_advise.Api.Isolation.{tenant_of}
use bet_advise.Api.Advices.{get_all, permissions_of, serve_advice}
use bet_advise.Api.Advices.Owned.{serve_advice-IsOwned}
use bet_advise.Tests.Fixed.{Fixed, nan, fixed}
use bet_advise.Tests.Generation.{services, details, call, world}
use bet_advise.Tests.Tenancy.{payload}

abbrev verifiers : Verifiers
verifiers = record {
  verify = λ t. some payload;
  check = λ t. ok payload;
  check_again = λ t. ok payload;
}

abbrev request : HttpRequest
request = record {
  authorization = some (codes "Bearer abc");
  original_url = some (codes "/advice");
  url = none;
  path = none;
}

abbrev own : AdviceEntity Fixed
own = entity_of fixed (codes "acme-1") 9000 details

abbrev foreign : AdviceEntity Fixed
foreign = entity_of fixed (codes "t2") 9000 details

abbrev stored : World Fixed
stored = record world { database = record { advice = foreign ∷ own ∷ []; outbox = [] } }

abbrev answer : Advice Fixed
answer = to_domain fixed (λ t. nan) 8500 own

served :
    serve_advice fixed verifiers services call request (get_all none) stored
    ≡ (stored, ok (answer ∷ []))
unfolding serve_advice admit use_middleware jwt_can_activate permissions_can_activate list_advice
    find_all find_where entity_of to_domain get_tenant_id principal_of guard_scopes
    middleware_scopes words sanitize run member text_eq
served = refl

serve_advice-IsOwned_example :
    (header : Text) × (payload : Claims) × (request.authorization ≡ some header)
    × (verifiers.check (token_of header) ≡ ok payload)
    × All
        (λ perm. Occurs perm (guard_scopes payload.scope payload.scopes))
        (permissions_of (get_all none))
    × IsOwned fixed (tenant_of payload) (answer ∷ [])
unfolding is_health to_lower_case includes
serve_advice-IsOwned_example =
    serve_advice-IsOwned fixed verifiers services call request (get_all none) stored stored
      (answer ∷ []) refl (λ token p q a b. ground arith) served
