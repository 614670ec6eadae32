-- ===== src/Tests/Issue.antt =====
-- Settings of production, and tokens that hold a subject alone.
use bet_advise.Base.{
  ◌≡◌, refl, sym, ap, ◌↔◌, ◌⊎◌, inl, inr, ℕ, Bool, true, false, ◌&&◌, Bool-cases, Option, none,
  some, [], if◌then◌else◌, arith,
}
use bet_advise.Base.Exec.{Exec, ok, throw}
use bet_advise.Base.Text.{Text, codes, text_eq, text_eq_iff, text_or, member}
use bet_advise.Auth.{Claim, Claims, other, text}
use bet_advise.Auth.Tokens.{TokenHeader, TokenConfig, verify_token}
use bet_advise.Auth.Tokens.Issue.{
  Settings, insecure, new_token_service, env_of, new_token_service-throw_iff, SignOptions,
  IsSigning, generate_access_token, generate_refresh_token, verify_token-generate_access_token,
}
use bet_advise.Tests.Tokens.{config, fetching, unfilled}

abbrev settings : Settings
settings = record {
  app_node_env = some (codes "production");
  node_env = none;
  secret = some (codes "super-secret");
  jwks_uri = none;
  issuer = none;
  audience = none;
  tenant_claim_name = none;
  clock_skew = none;
  algorithms = none;
  jwks_cache_duration = none;
}

new_token_service-throw_iff_example : (new_token_service settings ≡ throw insecure) ↔ (
    (env_of settings ≡ codes "production")
    × (text_or settings.jwks_uri [] ≡ [])
    × ((text_or settings.secret [] ≡ []) ⊎ (text_or settings.secret [] ≡ codes "super-secret")))
new_token_service-throw_iff_example = new_token_service-throw_iff settings

abbrev is_none : {A : Type 0} → Option A → Bool
is_none none = true
is_none (some a) = false

abbrev is_other : Claim → Bool
is_other other = true
is_other _ = false

abbrev claims_of : Text → Claims
claims_of subject = record {
  sub = some subject;
  id = none;
  tenant_id = none;
  tenant_id_camel = none;
  scope = other;
  scopes = other;
  email = none;
  roles = none;
}

abbrev has_subject_only : Claims → Bool
has_subject_only p =
    is_none p.id
    && is_none p.tenant_id
    && is_none p.tenant_id_camel
    && is_other p.scope
    && is_other p.scopes
    && is_none p.email
    && is_none p.roles

abbrev subject_or_throw : Option Text → Exec Text Text
subject_or_throw none = throw (codes "no subject")
subject_or_throw (some t) = ok t

-- The token is the subject.
abbrev sign : ℕ → Claims → Text → SignOptions → Exec Text Text
sign now p key o =
    if text_eq o.algorithm (codes "HS256") && has_subject_only p
    then subject_or_throw p.sub
    else throw (codes "not supported")

abbrev decode : Text → Option TokenHeader
decode token = some (record { alg = codes "HS256"; kid = none })

abbrev verify : ℕ → TokenConfig → Text → Text → Exec Text Claims
verify now c token key = ok (claims_of token)

is_none-none : {A : Type 0} (o : Option A) → is_none o ≡ true → o ≡ none
is_none-none none h = refl
is_none-none (some a) h = ground arith

is_other-other : (c : Claim) → is_other c ≡ true → c ≡ other
is_other-other other h = refl
is_other-other (text t) h = ground arith
is_other-other (Claim.array ts) h = ground arith

subject_or_throw-ok : (o : Option Text) (t : Text) → subject_or_throw o ≡ ok t → o ≡ some t
subject_or_throw-ok none t h = ground arith
subject_or_throw-ok (some u) t h = ground arith

sign-claims_of :
    (payload : Claims) (o : SignOptions) (token : Text)
    → sign 0 payload [] o ≡ ok token
    → (o.algorithm ≡ codes "HS256") × (payload ≡ claims_of token)
sign-claims_of payload o token h =
    elim (Bool-cases (text_eq o.algorithm (codes "HS256") && has_subject_only payload)) [
      | inr other_shape ↦ ground arith
      | inl plain ↦
          let sub : payload.sub ≡ some token =
            subject_or_throw-ok payload.sub token (ground arith) in
          (
            (text_eq_iff o.algorithm (codes "HS256")).0 (ground arith),
            ground (
              arith,
              sub,
              is_none-none payload.id,
              is_none-none payload.tenant_id,
              is_none-none payload.tenant_id_camel,
              is_other-other payload.scope,
              is_other-other payload.scopes,
              is_none-none payload.email,
              is_none-none payload.roles,
            ),
          )
    ]

sign-IsSigning : IsSigning sign decode verify
sign-IsSigning = record {
  header = λ issued payload key token o signed.
      ap (λ a. some (record { alg = a; kid = none }))
        (sym (sign-claims_of payload o token signed).0);
  verified = λ issued now payload key token o c signed i a m s f.
      ap ok (sym (sign-claims_of payload o token signed).1);
}

issued : generate_access_token sign config 1000 (claims_of (codes "u1")) ≡ ok (codes "u1")
unfolding generate_access_token text_eq
issued = refl

refreshed : generate_refresh_token sign config 1000 (claims_of (codes "u1")) ≡ ok (codes "u1")
unfolding generate_refresh_token text_eq
refreshed = refl

allowed : member (codes "HS256") config.algorithms ≡ true
unfolding member text_eq
allowed = refl

verify_token-generate_access_token_example :
    (verify_token decode (verify 4600) config fetching (codes "u1") unfilled
      ≡ (unfilled, ok (claims_of (codes "u1"))))
    × (verify_token decode (verify 4600) config fetching (codes "u1") unfilled
        ≡ (unfilled, ok (claims_of (codes "u1"))))
verify_token-generate_access_token_example =
    verify_token-generate_access_token sign decode verify sign-IsSigning 1000 4600 config
      (claims_of (codes "u1")) (codes "u1") (codes "u1") fetching unfilled issued refreshed allowed
      (omega arith) (omega arith)
