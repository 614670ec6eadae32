-- ===== src/Tests/Tenancy.antt =====
-- Requests with a verified token, with none, and with one that the middleware cannot verify.
use bet_advise.Base.{
  ◌≡◌, ◌≢◌, refl, ◌↔◌, ◌⊎◌, Option, none, some, true, false, List, [], ◌∷◌, All, Occurs,
}
use bet_advise.Base.Exec.{Exec, ok, throw}
use bet_advise.Base.Text.{Text, codes, text_eq}
use bet_advise.Auth.{Principal, text, other, Claims, words, principal_of}
use bet_advise.Auth.Guards.{Request, guard_scopes, jwt_can_activate, permissions_can_activate}
use bet_advise.Auth.Guards.Laws.{
  IsAuthenticated, jwt_can_activate-ok_iff, permissions_can_activate_iff,
}
use bet_advise.Tenancy.{Store, sanitize, run, get_tenant_id}
use bet_advise.Tenancy.Middleware.{HttpRequest, Passed, middleware_scopes, use_middleware}
use bet_advise.Tenancy.Middleware.Laws.{IsClaimed, IsPublic, use_middleware-cases}
use bet_advise.Tenancy.Subscriber.{
  Entity, tenant_mismatch, active_tenant, before_insert, before_update, before_remove,
}
use bet_advise.Tenancy.Subscriber.Laws.{before_insert-guards}

abbrev pub payload : Claims
payload = record {
  sub = some (codes "u1");
  id = none;
  tenant_id = some (codes " Acme-1 ");
  tenant_id_camel = none;
  scope = text (codes "advice:read  advice:write");
  scopes = other;
  email = none;
  roles = none;
}

acme : sanitize (codes " Acme-1! ") ≡ codes "acme-1"
unfolding sanitize
acme = refl

two_scopes :
    words (codes "advice:read  advice:write") ≡ codes "advice:read" ∷ codes "advice:write" ∷ []
unfolding words
two_scopes = refl

abbrev pub bearer : Text
bearer = codes "Bearer abc"

abbrev request : Request
request = record { authorization = some bearer; principal = none; tenant_id = none }

abbrev caller : Principal
caller = record {
  id = codes "u1";
  tenant_id = codes " Acme-1 ";
  scopes = codes "advice:read" ∷ codes "advice:write" ∷ [];
  email = none;
  roles = none;
}

abbrev entered : Request
entered = record request { principal = some caller; tenant_id = some caller.tenant_id }

abbrev always : Text → Exec Text Claims
always t = ok payload

jwt_can_activate-ok_iff_example :
    (jwt_can_activate always false request ≡ ok entered)
    ↔ ((header : Text) × (p : Claims) × IsAuthenticated always request entered header p)
jwt_can_activate-ok_iff_example = jwt_can_activate-ok_iff always request entered

request-entered : jwt_can_activate always false request ≡ ok entered
unfolding jwt_can_activate principal_of guard_scopes words
request-entered = refl

permissions_can_activate_iff_example :
    (permissions_can_activate (some (codes "advice:write" ∷ [])) entered ≡ ok true) ↔ (
      (◌≡◌ {A = List Text} (codes "advice:write" ∷ []) [])
      ⊎ ((p : Principal) × (entered.principal ≡ some p)
          × All (λ perm. Occurs perm p.scopes) (codes "advice:write" ∷ [])))
permissions_can_activate_iff_example =
    permissions_can_activate_iff (codes "advice:write" ∷ []) entered

abbrev pub call : Text → HttpRequest
call url = record { authorization = some bearer; original_url = some url; url = none; path = none }

abbrev verified : Text → Option Claims
verified t = some payload

abbrev unverified : Text → Option Claims
unverified t = none

abbrev passed : Passed
passed = record {
  store = some (codes "acme-1");
  principal = some caller;
  tenant_id = codes "acme-1";
}

call-passed : use_middleware verified (call (codes "/advice")) ≡ ok passed
unfolding use_middleware principal_of middleware_scopes words sanitize run
call-passed = refl

use_middleware-cases_example :
    IsClaimed verified (call (codes "/advice")) passed
    ⊎ IsPublic verified (call (codes "/advice")) passed
use_middleware-cases_example =
    use_middleware-cases verified (call (codes "/advice")) passed call-passed

abbrev mine : Entity
mine = record { tenant_id_camel = some (codes "t1"); tenant_id = none }

abbrev theirs : Entity
theirs = record { tenant_id_camel = some (codes "t2"); tenant_id = none }

in_t1 : active_tenant (some (some (codes "t1"))) ≡ some (codes "t1")
unfolding active_tenant get_tenant_id text_eq
in_t1 = refl

in_t2 : active_tenant (some (some (codes "t2"))) ≡ some (codes "t2")
unfolding active_tenant get_tenant_id text_eq
in_t2 = refl

abbrev in_first : Option Store
in_first = some (some (codes "t1"))

abbrev in_second : Option Store
in_second = some (some (codes "t2"))

-- A match of `t1`, which a request of `t2` updates and removes.
before_insert-guards_example :
    ((before_insert in_first theirs).tenant_id_camel ≡ some (codes "t1"))
    × ((before_update in_second (some (before_insert in_first theirs)) (some mine)
          ≡ throw tenant_mismatch)
        ↔ (codes "t1" ≢ codes "t2"))
    × ((before_remove in_second (some (before_insert in_first theirs)) (some mine)
          ≡ throw tenant_mismatch)
        ↔ (codes "t1" ≢ codes "t2"))
    × ((before_update in_second none (some (before_insert in_first theirs)) ≡ throw tenant_mismatch)
        ↔ (codes "t1" ≢ codes "t2"))
    × ((before_remove in_second none (some (before_insert in_first theirs)) ≡ throw tenant_mismatch)
        ↔ (codes "t1" ≢ codes "t2"))
    × (before_update in_second (some theirs) (some (before_insert in_first theirs)) ≡ ok tt)
    × (before_remove in_second (some theirs) (some (before_insert in_first theirs)) ≡ ok tt)
before_insert-guards_example =
    before_insert-guards in_first in_second theirs theirs (some mine) (codes "t2") (codes "t1")
      (codes "t2") in_t1 in_t2 refl refl
