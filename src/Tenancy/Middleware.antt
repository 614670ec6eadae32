-- ===== src/Tenancy/Middleware.antt =====
-- The tenant middleware: src/shared/infrastructure/tenant/tenant.middleware.ts.
pub mod Laws
use bet_advise.Base.{Bool, true, false, ◌||◌, Option, none, some, List, [], ◌∷◌, if◌then◌else◌}
use bet_advise.Base.Exec.{Exec, ok, throw}
use bet_advise.Base.Text.{text_or, Text, codes, is_empty, includes}
use bet_advise.Auth.{Principal, Claim, text, array, other, Claims, token_of, words, principal_of}
use bet_advise.Tenancy.{to_lower_case, sanitize, Store, TenantError, run}

-- The parts of an Express request that are read.
pub record HttpRequest : Type 0 where
  pub authorization : Option Text
  pub original_url : Option Text
  pub url : Option Text
  pub path : Option Text

-- An `UnauthorizedException`, with its message.
pub data TenantRejection : Type 0 where
  invalid_signature : TenantRejection
  tenant_unresolved : TenantRejection
  invalid_format : TenantRejection
  context_refused : TenantRejection

-- What `next()` is called with: the tenant of the context, and what was put on the request.
pub record Passed : Type 0 where
  pub store : Store
  pub principal : Option Principal
  pub tenant_id : Text

-- The middleware's scopes: a text, or the array `scopes`.
unfoldable pub middleware_scopes : Claim → Claim → List Text
middleware_scopes (text s) scopes = words s
middleware_scopes _ (array ss) = ss
middleware_scopes _ _ = []

-- `path.includes('/health') || path.includes('health')`, in lower case.
unfoldable pub is_health : HttpRequest → Bool
is_health req =
    let path = to_lower_case (text_or req.original_url (text_or req.url (text_or req.path []))) in
    includes path (codes "/health") || includes path (codes "health")

-- From the tenant on: the clean-up, and the context.
enter : Option Principal → Text → Exec TenantRejection Passed
enter principal tenant_id =
    let sanitized = sanitize tenant_id in
    if is_empty sanitized then throw invalid_format else elim (run sanitized (λ store. store)) [
      | ok store ↦ ok (record { store = store; principal = principal; tenant_id = sanitized })
      | throw e ↦ throw context_refused
    ]

-- `if (!tenantId)`: only a health path goes on, as the tenant `public`.
resolve : HttpRequest → Option Principal → Text → Exec TenantRejection Passed
unfolding enter
resolve req principal tenant_id =
    if is_empty tenant_id
    then if is_health req then enter principal (codes "public") else throw tenant_unresolved
    else enter principal tenant_id

-- The `try` around `jwt.verify`; `none` is a verification that threw.
authenticated : HttpRequest → Option Claims → Exec TenantRejection Passed
unfolding resolve
authenticated req (some payload) =
    let principal = principal_of payload (middleware_scopes payload.scope payload.scopes) in
    resolve req (some principal) principal.tenant_id
authenticated req none = if is_health req then resolve req none [] else throw invalid_signature

with_header : (Text → Option Claims) → HttpRequest → Option Text → Exec TenantRejection Passed
unfolding authenticated
with_header verify req none = resolve req none []
with_header verify req (some header) =
    if is_empty header then resolve req none [] else authenticated req (verify (token_of header))

-- `TenantMiddleware.use`; `verify` is `jwt.verify` with the configured secret and algorithms.
unfoldable pub use_middleware : (Text → Option Claims) → HttpRequest → Exec TenantRejection Passed
unfolding with_header
use_middleware verify req = with_header verify req req.authorization
