-- ===== src/Api.antt =====
-- The HTTP API: how src/bootstrap/api.module.ts puts the middleware and the guards in front of the
-- controllers, and the session route of src/auth/interfaces/http/auth.controller.ts.
pub mod Matches
pub mod Advices
pub mod Isolation
use bet_advise.Base.{Bool, true, false, Option, none, some, List, [], ◌∷◌}
use bet_advise.Base.Exec.{Exec, ok, throw, ◌>>=◌}
use bet_advise.Base.Text.{Text, is_empty}
use bet_advise.Auth.{Principal, Claims}
use bet_advise.Auth.Guards.{
  Request, Unauthorized, Forbidden, jwt_can_activate, permissions_can_activate,
}
use bet_advise.Tenancy.Middleware.{HttpRequest, TenantRejection, Passed, use_middleware}

-- What a route's decorators say: `@Public()`, `@RequirePermissions(…)`, and which guards
-- `@UseGuards(…)` names on the controller.
pub record Route : Type 0 where
  pub is_public : Bool
  pub permissions : Option (List Text)
  pub own_jwt_guard : Bool
  pub own_permissions_guard : Bool

-- What verifies tokens: `jwt.verify` of the middleware, and what the token service answers to the
-- global guard and to that of the controller.
pub record Verifiers : Type 0 where
  pub verify : Text → Option Claims
  pub check : Text → Exec Text Claims
  pub check_again : Text → Exec Text Claims

-- The exceptions in front of a handler.
pub data Refusal : Type 0 where
  no_tenant : TenantRejection → Refusal
  unauthorized : Unauthorized → Refusal
  forbidden : Forbidden → Refusal
  not_activated : Refusal
  bad_request : Refusal

abbrev pub map_error : {E F A : Type 0} → (E → F) → Exec E A → Exec F A
map_error f (ok a) = ok a
map_error f (throw e) = throw (f e)

-- The JWT guard, if the route has it.
run_jwt : Bool → (Text → Exec Text Claims) → Route → Request → Exec Refusal Request
run_jwt false check route request = ok request
run_jwt true check route request =
    map_error unauthorized (jwt_can_activate check route.is_public request)

-- The permissions guard, if the route has it: a guard that returns `false` is a refusal.
run_permissions : Bool → Route → Request → Exec Refusal Request
run_permissions false route request = ok request
run_permissions true route request = elim (permissions_can_activate route.permissions request) [
  | throw e ↦ throw (forbidden e)
  | ok false ↦ throw not_activated
  | ok true ↦ ok request
]

-- The request as the middleware leaves it.
abbrev request_of : HttpRequest → Passed → Request
request_of req passed = record {
  authorization = req.authorization;
  principal = passed.principal;
  tenant_id = some passed.tenant_id;
}

-- The guards of the controller.
own_guards : Verifiers → Route → Passed → Request → Exec Refusal (Passed × Request)
unfolding run_jwt run_permissions
own_guards v route passed request = do
  request ← run_jwt route.own_jwt_guard v.check_again route request
  request ← run_permissions route.own_permissions_guard route request
  ok (passed, request)

-- The middleware, the two guards of `APP_GUARD`, then those of the controller.
unfoldable pub admit : Verifiers → Route → HttpRequest → Exec Refusal (Passed × Request)
unfolding own_guards run_jwt run_permissions
admit v route req = do
  passed ← map_error no_tenant (use_middleware v.verify req)
  request ← run_jwt true v.check route (request_of req passed)
  request ← run_permissions true route request
  own_guards v route passed request

-- A value of a JSON body: `missing` is also `null`.
pub data Field : Type 0 where
  missing : Field
  text : Text → Field
  other : Field

-- `@IsString() @IsNotEmpty()`
unfoldable pub required_text : Field → Exec Refusal Text
required_text missing = throw bad_request
required_text other = throw bad_request
required_text (text []) = throw bad_request
required_text (text (c ∷ t)) = ok (c ∷ t)

-- `@IsString() @IsOptional()`
unfoldable pub optional_text : Field → Exec Refusal (Option Text)
optional_text missing = ok none
optional_text other = throw bad_request
optional_text (text t) = ok (some t)

-- `GET auth/session`: the principal that the guard has put on the request.
abbrev session_route : Route
session_route = record {
  is_public = false;
  permissions = none;
  own_jwt_guard = true;
  own_permissions_guard = false;
}

unfoldable pub get_session : Verifiers → HttpRequest → Exec Refusal (Option Principal)
unfolding admit
get_session v req = do (passed, request) ← admit v session_route req; ok request.principal
