-- ===== src/Tenancy/Middleware/Laws.antt =====
-- Which tenant a request is given.
use bet_advise.Base.{◌≡◌, ◌≢◌, refl, ◌⊎◌, true, Option, none, some, [], ◌∷◌, arith, inl, inr}
use bet_advise.Base.Exec.{ok}
use bet_advise.Base.Text.{Text, codes}
use bet_advise.Auth.{Principal, Claims, token_of, principal_of}
use bet_advise.Tenancy.{sanitize, run}
use bet_advise.Tenancy.Sanitize.{sanitize_idempotent}
use bet_advise.Tenancy.Middleware.{
  HttpRequest, Passed, middleware_scopes, is_health, enter, resolve, authenticated, with_header,
  use_middleware,
}

-- The context and the request are those of one cleaned tenant, with the principal of the caller.
pub record IsFor (tenant : Text) (caller : Option Principal) (p : Passed) : Type 0 where
  pub store : p.store ≡ some (sanitize tenant)
  pub tenant_id : p.tenant_id ≡ sanitize tenant
  pub principal : p.principal ≡ caller
  pub filled : sanitize tenant ≢ []

enter-IsFor :
    (principal : Option Principal) (tenant : Text) (p : Passed)
    → enter principal tenant ≡ ok p
    → IsFor tenant principal p
unfolding enter run
enter-IsFor principal tenant p h =
    let (good, same) = sanitize_idempotent tenant in
    record {
      store = rw same at (store_of h);
      tenant_id = ground arith;
      principal = ground arith;
      filled = ground arith;
    }
  where
    store_of : enter principal tenant ≡ ok p → p.store ≡ some (sanitize (sanitize tenant))
    store_of h = ground arith

-- A request with a token that was verified and names a tenant.
abbrev pub IsClaimed : (Text → Option Claims) → HttpRequest → Passed → Type 0
IsClaimed verify req p =
    (header : Text) × (payload : Claims) × (req.authorization ≡ some header)
    × (verify (token_of header) ≡ some payload)
    × ((principal_of payload (middleware_scopes payload.scope payload.scopes)).tenant_id ≢ [])
    × IsFor (principal_of payload (middleware_scopes payload.scope payload.scopes)).tenant_id
        (some (principal_of payload (middleware_scopes payload.scope payload.scopes))) p

-- The caller of a request whose tenant is not known: nobody, if it brings no token that can be
-- verified, else the principal of a verified token that names no tenant.
abbrev pub IsUnnamed : (Text → Option Claims) → HttpRequest → Option Principal → Type 0
IsUnnamed verify req none =
    (header : Text)
    → req.authorization ≡ some header
    → header ≢ []
    → verify (token_of header) ≡ none
IsUnnamed verify req (some caller) =
    (header : Text) × (payload : Claims) × (req.authorization ≡ some header)
    × (verify (token_of header) ≡ some payload)
    × (caller ≡ principal_of payload (middleware_scopes payload.scope payload.scopes))
    × (caller.tenant_id ≡ [])

-- A request to a health path, which runs as the tenant `public`.
abbrev pub IsPublic : (Text → Option Claims) → HttpRequest → Passed → Type 0
IsPublic verify req p =
    (is_health req ≡ true)
    × (caller : Option Principal) × IsUnnamed verify req caller
    × IsFor (codes "public") caller p

resolve-cases :
    (req : HttpRequest) (principal : Option Principal) (tenant : Text) (p : Passed)
    → resolve req principal tenant ≡ ok p
    → (tenant ≢ []) × IsFor tenant principal p
      ⊎ ((tenant ≡ []) × (is_health req ≡ true) × IsFor (codes "public") principal p)
unfolding resolve
resolve-cases req principal [] p h =
    let entered : enter principal (codes "public") ≡ ok p = ground arith in
    inr (refl, ground arith, enter-IsFor principal (codes "public") p entered)
resolve-cases req principal (c ∷ s) p h =
    inl ((λ e. ground arith), enter-IsFor principal (c ∷ s) p h)

resolve-IsPublic :
    (verify : Text → Option Claims) (req : HttpRequest) (p : Passed)
    → IsUnnamed verify req none
    → resolve req none [] ≡ ok p
    → IsClaimed verify req p ⊎ IsPublic verify req p
resolve-IsPublic verify req p unnamed h = elim (resolve-cases req none [] p h) [
  | inl (named, f) ↦ absurd (named refl)
  | inr (empty, health, f) ↦ inr (health, none, unnamed, f)
]

authenticated-cases :
    (verify : Text → Option Claims) (req : HttpRequest) (header : Text) (o : Option Claims)
    (p : Passed)
    → req.authorization ≡ some header
    → verify (token_of header) ≡ o
    → authenticated req o ≡ ok p
    → IsClaimed verify req p ⊎ IsPublic verify req p
unfolding authenticated
authenticated-cases verify req header (some payload) p given v h =
    let pr = principal_of payload (middleware_scopes payload.scope payload.scopes) in
    elim (resolve-cases req (some pr) pr.tenant_id p h) [
      | inl (named, f) ↦ inl (header, payload, given, v, named, f)
      | inr (empty, health, f) ↦ inr (health, some pr, (header, payload, given, v, refl, empty), f)
    ]
authenticated-cases verify req header none p given v h =
    resolve-IsPublic verify req p
      (λ other given' filled. let same : header ≡ other = ground arith in rw (← same) v)
      (ground arith)

with_header-cases :
    (verify : Text → Option Claims) (req : HttpRequest) (o : Option Text) (p : Passed)
    → req.authorization ≡ o
    → with_header verify req o ≡ ok p
    → IsClaimed verify req p ⊎ IsPublic verify req p
unfolding with_header
with_header-cases verify req none p e h =
    resolve-IsPublic verify req p (λ header given filled. ground arith) h
with_header-cases verify req (some []) p e h =
    resolve-IsPublic verify req p (λ header given filled. absurd (filled (ground arith))) h
with_header-cases verify req (some (c ∷ s)) p e h =
    authenticated-cases verify req (c ∷ s) (verify (token_of (c ∷ s))) p e refl h

-- A request goes on only in one of two ways. Either its token was verified and names a tenant: the
-- context and the request get the tenant, cleaned, and the principal is that of the token, with
-- the tenant as the token has it. Or its URL speaks of health: it runs as the tenant `public`, with
-- no principal if it brings no token that can be verified, else with that of a verified token that
-- names no tenant. The tenant is never empty.
pub use_middleware-cases :
    (verify : Text → Option Claims) (req : HttpRequest) (p : Passed)
    → use_middleware verify req ≡ ok p
    → IsClaimed verify req p ⊎ IsPublic verify req p
unfolding use_middleware
use_middleware-cases verify req p h = with_header-cases verify req req.authorization p refl h
