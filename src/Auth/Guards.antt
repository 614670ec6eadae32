-- ===== src/Auth/Guards.antt =====
-- The guards: src/auth/interfaces/http/guards/jwt-auth.guard.ts and permissions.guard.ts.
pub mod Laws
use bet_advise.Base.{
  Bool, true, false, not, ◌||◌, Option, none, some, List, [], ◌∷◌, all, if◌then◌else◌,
}
use bet_advise.Base.Exec.{Exec, ok, throw}
use bet_advise.Base.Text.{Text, codes, is_empty, member}
use bet_advise.Auth.{Principal, Claim, text, array, other, Claims, token_of, words, principal_of}

-- The parts of a request that the guards read and write.
pub record Request : Type 0 where
  pub authorization : Option Text
  pub principal : Option Principal
  pub tenant_id : Option Text

-- The guard's scopes: a text, the array `scopes`, or the array `scope`.
unfoldable pub guard_scopes : Claim → Claim → List Text
guard_scopes (text s) scopes = words s
guard_scopes _ (array ss) = ss
guard_scopes (array ss) _ = ss
guard_scopes _ _ = []

-- An `UnauthorizedException`, with its message.
pub data Unauthorized : Type 0 where
  header_missing : Unauthorized
  tenant_claim_missing : Unauthorized
  token_rejected : Text → Unauthorized

-- The `try` block after the token was verified; its own exception passes through the `catch`
-- with its message.
accept : Request → Claims → Exec Unauthorized Request
accept request payload =
    let principal = principal_of payload (guard_scopes payload.scope payload.scopes) in
    if is_empty principal.tenant_id
    then throw tenant_claim_missing
    else ok (record request { principal = some principal; tenant_id = some principal.tenant_id })

abbrev message_or : Text → Text → Text
message_or m d = if is_empty m then d else m

-- `error.message || 'Invalid or expired token.'`
settle : Request → Exec Text Claims → Exec Unauthorized Request
unfolding accept
settle request (throw m) = throw (token_rejected (message_or m (codes "Invalid or expired token.")))
settle request (ok payload) = accept request payload

authenticate : (Text → Exec Text Claims) → Request → Option Text → Exec Unauthorized Request
unfolding settle
authenticate verify request none = throw header_missing
authenticate verify request (some header) =
    if is_empty header then throw header_missing else settle request (verify (token_of header))

-- `JwtAuthGuard.canActivate`, with the token service's `verifyToken` as an argument: the request
-- as the guard leaves it, or the exception.
unfoldable pub jwt_can_activate :
    (Text → Exec Text Claims) → Bool → Request → Exec Unauthorized Request
unfolding authenticate
jwt_can_activate verify is_public request =
    if is_public then ok request else authenticate verify request request.authorization

pub data Forbidden : Type 0 where
  no_principal : Forbidden
  lacks_scopes : List Text → Forbidden

check_scopes : List Text → Option Principal → Exec Forbidden Bool
check_scopes required none = throw no_principal
check_scopes required (some p) =
    if not (all (λ perm. member perm p.scopes) required)
    then throw (lacks_scopes required)
    else ok true

-- `PermissionsGuard.canActivate`; no metadata and an empty list both need nothing.
unfoldable pub permissions_can_activate : Option (List Text) → Request → Exec Forbidden Bool
unfolding check_scopes
permissions_can_activate none request = ok true
permissions_can_activate (some []) request = ok true
permissions_can_activate (some (r ∷ rs)) request = check_scopes (r ∷ rs) request.principal
