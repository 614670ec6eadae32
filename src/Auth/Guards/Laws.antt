-- ===== src/Auth/Guards/Laws.antt =====
-- What the guards let through.
use bet_advise.Base.{
  ◌≡◌, ◌≢◌, refl, ◌↔◌, ◌⊎◌, true, false, Option, none, some, List, [], ◌∷◌, all, All, Occurs, arith,
  Option-value, inl, inr,
}
use bet_advise.Base.Exec.{Exec, ok, throw}
use bet_advise.Base.Text.{Text, text_eq_iff, member}
use bet_advise.Auth.{Principal, Claims, token_of, principal_of}
use bet_advise.Auth.Guards.{
  Request, accept, settle, guard_scopes, jwt_can_activate, check_scopes, permissions_can_activate,
}

-- A request that was let in: it has a header, the service has verified its token, the payload
-- names a tenant, and the request carries the principal of that payload and its tenant.
pub record IsAuthenticated (verify : Text → Exec Text Claims) (request request' : Request)
    (header : Text) (payload : Claims) : Type 0 where
  pub given : request.authorization ≡ some header
  pub present : header ≢ []
  pub verified : verify (token_of header) ≡ ok payload
  pub principal :
      request'.principal ≡ some (principal_of payload (guard_scopes payload.scope payload.scopes))
  pub tenant :
      request'.tenant_id
      ≡ some (principal_of payload (guard_scopes payload.scope payload.scopes)).tenant_id
  pub named : (principal_of payload (guard_scopes payload.scope payload.scopes)).tenant_id ≢ []
  pub header_kept : request'.authorization ≡ request.authorization

accept-ok :
    (verify : Text → Exec Text Claims) (request request' : Request) (header : Text)
    (payload : Claims)
    → request.authorization ≡ some header
    → header ≢ []
    → verify (token_of header) ≡ ok payload
    → accept request payload ≡ ok request'
    → IsAuthenticated verify request request' header payload
unfolding accept
accept-ok verify request request' header payload given present verified h = record {
  given = given;
  present = present;
  verified = verified;
  principal = ground arith;
  tenant = ground arith;
  named = ground arith;
  header_kept = ground arith;
}

settle-ok :
    (request request' : Request) (m : Exec Text Claims)
    → settle request m ≡ ok request'
    → (payload : Claims) × (m ≡ ok payload) × (accept request payload ≡ ok request')
unfolding settle
settle-ok request request' (ok payload) h = (payload, refl, h)
settle-ok request request' (throw e) h = cc

-- A route that is not public is entered exactly by requests with a header whose token the service
-- verifies and whose payload names a tenant, and carries on with the principal and the tenant of
-- that payload.
pub jwt_can_activate-ok_iff :
    (verify : Text → Exec Text Claims) (request request' : Request)
    → (jwt_can_activate verify false request ≡ ok request') ↔ (
        (header : Text) × (payload : Claims) × IsAuthenticated verify request request' header
          payload)
unfolding jwt_can_activate
jwt_can_activate-ok_iff verify request request' = (
  λ h.
      let (header, given) = Option-value request.authorization (ground arith) in
      let settled : settle request (verify (token_of header)) ≡ ok request' = ground arith in
      let (payload, verified, accepted) =
        settle-ok request request' (verify (token_of header)) settled in
      (
        header,
        payload,
        accept-ok verify request request' header payload given (ground arith) verified accepted,
      ),
  λ (header, payload, a). ground arith,
)

member-Occurs : (t : Text) (xs : List Text) → (member t xs ≡ true) ↔ Occurs t xs
unfolding member
member-Occurs t [] = ground arith
member-Occurs t (x ∷ xs) = ground (arith, text_eq_iff x t, member-Occurs t xs)

all-member :
    (required scopes : List Text)
    → (all (λ perm. member perm scopes) required ≡ true) ↔ All (λ perm. Occurs perm scopes) required
all-member [] scopes = ground arith
all-member (r ∷ rs) scopes = ground (arith, member-Occurs r scopes, all-member rs scopes)

-- The permissions guard returns exactly where no permission is required, or where the request has
-- a principal whose scopes hold every one that is.
pub permissions_can_activate_iff :
    (required : List Text) (request : Request)
    → (permissions_can_activate (some required) request ≡ ok true) ↔ (
        (required ≡ [])
        ⊎ ((p : Principal) × (request.principal ≡ some p)
            × All (λ perm. Occurs perm p.scopes) required))
unfolding permissions_can_activate
permissions_can_activate_iff [] request = ground arith
permissions_can_activate_iff (r ∷ rs) request = check request.principal refl
  where
    check :
        (o : Option Principal)
        → request.principal ≡ o
        → (check_scopes (r ∷ rs) request.principal ≡ ok true) ↔ (
            ((r ∷ rs) ≡ [])
            ⊎ ((p : Principal) × (request.principal ≡ some p)
                × All (λ perm. Occurs perm p.scopes) (r ∷ rs)))
    check none e = (λ h. ground arith, λ h. ground arith)
    check (some p) e = (
      λ h. inr (p, e, (all-member (r ∷ rs) p.scopes).0 (ground arith)),
      λ h. elim h [
        | inl f ↦ absurd (ground arith)
        | inr (q, same, holds) ↦ ground (arith, all-member (r ∷ rs) q.scopes, holds)
      ],
    )
