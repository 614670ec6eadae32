-- ===== src/Api/Isolation.antt =====
-- What the API lets through, and for which tenant.
use mathlib.Core.Path.{subst}
use bet_advise.Base.{
  ◌≡◌, ◌≢◌, refl, ◌⊎◌, inl, inr, true, false, some, List, [], ◌∷◌, All, Occurs, arith,
}
use bet_advise.Base.Exec.{Exec, Exec-cases, ok, throw}
use bet_advise.Base.Text.{Text, codes, is_empty}
use bet_advise.Auth.{Principal, Claims, token_of, principal_of}
use bet_advise.Auth.Guards.{Request, guard_scopes, permissions_can_activate}
use bet_advise.Auth.Guards.Laws.{
  IsAuthenticated, jwt_can_activate-ok_iff, permissions_can_activate_iff,
}
use bet_advise.Tenancy.{sanitize}
use bet_advise.Tenancy.Middleware.{HttpRequest, Passed, is_health, use_middleware}
use bet_advise.Tenancy.Middleware.Laws.{use_middleware-cases}
use bet_advise.Api.{
  Route, Verifiers, map_error, run_jwt, run_permissions, own_guards, request_of, admit,
}

-- What the first guards have seen, and what the middleware left.
pub record IsAdmitted (v : Verifiers) (req : HttpRequest) (passed : Passed) (required : List Text)
    (header : Text) (payload : Claims) : Type 0 where
  pub entered : use_middleware v.verify req ≡ ok passed
  pub given : req.authorization ≡ some header
  pub verified : v.check (token_of header) ≡ ok payload
  pub allowed : All (λ perm. Occurs perm (guard_scopes payload.scope payload.scopes)) required

map_error-ok : {E F A : Type 0} (f : E → F) (r : Exec E A) (a : A) → map_error f r ≡ ok a → r ≡ ok a
map_error-ok f (ok b) a h = ground arith
map_error-ok f (throw e) a h = ground arith

run_jwt-ok :
    (check : Text → Exec Text Claims) (route : Route) (request request' : Request)
    → route.is_public ≡ false
    → run_jwt true check route request ≡ ok request'
    → (header : Text) × (payload : Claims) × IsAuthenticated check request request' header payload
unfolding run_jwt
run_jwt-ok check route request request' closed h =
    (jwt_can_activate-ok_iff check request request').0 (rw closed at (map_error-ok _ _ request' h))

run_permissions-granted :
    (route : Route) (request request' : Request)
    → run_permissions true route request ≡ ok request'
    → permissions_can_activate route.permissions request ≡ ok true
unfolding run_permissions
run_permissions-granted route request request' h =
    elim (Exec-cases (permissions_can_activate route.permissions request)) [
      | inl (e, thrown) ↦ ground arith
      | inr (true, done) ↦ done
      | inr (false, done) ↦ ground arith
    ]

run_permissions-ok :
    (route : Route) (request request' : Request) (p : Principal) (required : List Text)
    → route.permissions ≡ some required
    → request.principal ≡ some p
    → ¬ (required ≡ [])
    → run_permissions true route request ≡ ok request'
    → All (λ perm. Occurs perm p.scopes) required
run_permissions-ok route request request' p required asks has nonempty h =
    let granted = run_permissions-granted route request request' h in
    elim ((permissions_can_activate_iff required request).0 (rw (← asks) granted)) [
      | inl none_asked ↦ absurd (nonempty none_asked)
      | inr (q, present, holds) ↦
          let same : q ≡ p = ground arith in
          subst (λ (o : Principal). All (λ perm. Occurs perm o.scopes) required) same holds
    ]

own_guards-passed :
    (v : Verifiers) (route : Route) (passed passed' : Passed) (request request' : Request)
    → own_guards v route passed request ≡ ok (passed', request')
    → passed ≡ passed'
unfolding own_guards
own_guards-passed v route passed passed' request request' h =
    elim (Exec-cases (run_jwt route.own_jwt_guard v.check_again route request)) [
      | inl (e, thrown) ↦ ground arith
      | inr (r, done) ↦ elim (Exec-cases (run_permissions route.own_permissions_guard route r)) [
        | inl (e, thrown) ↦ ground arith
        | inr (r', done') ↦ ground arith
      ]
    ]

-- The requests between the steps.
admit-steps :
    (v : Verifiers) (route : Route) (req : HttpRequest) (passed : Passed) (request : Request)
    → admit v route req ≡ ok (passed, request)
    → (use_middleware v.verify req ≡ ok passed)
      × (r : Request) × (run_jwt true v.check route (request_of req passed) ≡ ok r)
      × (r' : Request) × (run_permissions true route r ≡ ok r')
unfolding admit
admit-steps v route req passed request h = elim (Exec-cases (use_middleware v.verify req)) [
  | inl (e, thrown) ↦ ground arith
  | inr (passed', entered) ↦
      elim (Exec-cases (run_jwt true v.check route (request_of req passed'))) [
        | inl (e, thrown) ↦ ground arith
        | inr (r, authenticated) ↦ elim (Exec-cases (run_permissions true route r)) [
          | inl (e, thrown) ↦ ground arith
          | inr (r', granted) ↦
              let same = own_guards-passed v route passed' passed r' request (ground arith) in
              (ground arith, r, ground arith, r', granted)
        ]
      ]
]

pub admit-IsAdmitted :
    (v : Verifiers) (route : Route) (req : HttpRequest) (passed : Passed) (request : Request)
    (required : List Text)
    → route.is_public ≡ false
    → route.permissions ≡ some required
    → ¬ (required ≡ [])
    → admit v route req ≡ ok (passed, request)
    → (header : Text) × (payload : Claims) × IsAdmitted v req passed required header payload
unfolding guard_scopes principal_of
admit-IsAdmitted v route req passed request required closed asks nonempty h =
    let (entered, r, authenticated, r', granted) = admit-steps v route req passed request h in
    let (header, payload, a) =
      run_jwt-ok v.check route (request_of req passed) r closed authenticated in
    (
      header,
      payload,
      record {
        entered = entered;
        given = a.given;
        verified = a.verified;
        allowed = run_permissions-ok route r r' _ required asks a.principal nonempty granted;
      },
    )

-- The secret of the middleware and the token service read the same payload out of a token that
-- both accept.
abbrev pub IsConsistent : Verifiers → Type 0
IsConsistent v =
    (token : Text) (p q : Claims) → v.verify token ≡ some p → v.check token ≡ ok q → p ≡ q

-- The tenant that a payload names, cleaned.
abbrev pub tenant_of : Claims → Text
tenant_of payload = sanitize (principal_of payload []).tenant_id

not_empty : (t : Text) → t ≢ [] → is_empty t ≡ false
not_empty [] h = absurd (h refl)
not_empty (c ∷ t) h = refl

-- The context of an admitted request: the tenant of the token that the guards have seen, or, where
-- the URL speaks of health, `public`.
abbrev pub IsContext : HttpRequest → Claims → Passed → Type 0
IsContext req payload passed =
    (passed.store ≡ some (tenant_of payload)) × (is_empty (tenant_of payload) ≡ false)
    ⊎ ((is_health req ≡ true) × (passed.store ≡ some (codes "public")))

admitted-IsContext :
    (v : Verifiers) (req : HttpRequest) (passed : Passed) (required : List Text) (header : Text)
    (payload : Claims)
    → IsConsistent v
    → IsAdmitted v req passed required header payload
    → IsContext req payload passed
unfolding principal_of sanitize
admitted-IsContext v req passed required header payload same a =
    elim (use_middleware-cases v.verify req passed a.entered) [
      | inr (health, _, _, f) ↦ inr (health, f.store)
      | inl (header', payload', given, verified, named, f) ↦
          let e : header' ≡ header = ground (arith, a.given) in
          let p : payload' ≡ payload =
            same (token_of header) payload' payload (rw e at verified) a.verified in
          inl (rw (← p) f.store, rw (← p) (not_empty _ f.filled))
    ]

-- Off the health URLs, the context is that of the tenant of the principal.
pub admitted-store :
    (v : Verifiers) (req : HttpRequest) (passed : Passed) (required : List Text) (header : Text)
    (payload : Claims)
    → is_health req ≡ false
    → IsConsistent v
    → IsAdmitted v req passed required header payload
    → (passed.store ≡ some (tenant_of payload)) × (is_empty (tenant_of payload) ≡ false)
admitted-store v req passed required header payload off same a =
    elim (admitted-IsContext v req passed required header payload same a) [
      | inl own ↦ own
      | inr (health, public) ↦ ground arith
    ]

-- A request that middleware and guards let through to a closed route that asks for permissions has
-- a token that the token service verified and whose scopes hold them. If the middleware and the
-- token service read the same payload out of a token that both accept, the tenant context is that
-- of the cleaned tenant of this token, or else the URL speaks of health and the context is
-- `public`, whatever tenant the token is of.
pub admit-IsContext :
    (v : Verifiers) (route : Route) (req : HttpRequest) (passed : Passed) (request : Request)
    (required : List Text)
    → IsConsistent v
    → route.is_public ≡ false
    → route.permissions ≡ some required
    → ¬ (required ≡ [])
    → admit v route req ≡ ok (passed, request)
    → (header : Text) × (payload : Claims) × IsAdmitted v req passed required header payload
      × IsContext req payload passed
admit-IsContext v route req passed request required same closed asks nonempty h =
    let (header, payload, a) =
      admit-IsAdmitted v route req passed request required closed asks nonempty h in
    (header, payload, a, admitted-IsContext v req passed required header payload same a)
