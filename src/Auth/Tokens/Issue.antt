-- ===== src/Auth/Tokens/Issue.antt =====
-- The constructor of the token service, and the tokens that it issues.
use bet_advise.Base.{
  ℕ, zero, suc, ◌+◌, ◌*◌, ◌≤◌, ◌<◌, ◌≡◌, refl, ◌↔◌, ◌⊎◌, Bool, true, false, ◌&&◌, ◌||◌, Option,
  none, some, List, [], ◌∷◌, arith,
}
use bet_advise.Base.Exec.{Exec, ok, throw, ◌>>◌, throw_if}
use bet_advise.Base.Text.{Text, codes, is_empty, text_eq, text_eq_iff, text_or, starts_with, member}
use bet_advise.Auth.{Claims}
use bet_advise.Auth.Tokens.{
  TokenHeader, TokenConfig, JwksCache, Fetching, verify_under, verify_header, verify_token,
}

-- The values of the configuration service.
pub record Settings : Type 0 where
  pub app_node_env : Option Text
  pub node_env : Option Text
  pub secret : Option Text
  pub jwks_uri : Option Text
  pub issuer : Option Text
  pub audience : Option Text
  pub tenant_claim_name : Option Text
  pub clock_skew : Option ℕ
  pub algorithms : Option (List Text)
  pub jwks_cache_duration : Option ℕ

-- `a || b` on a number that may be missing.
abbrev number_or : Option ℕ → ℕ → ℕ
number_or none d = d
number_or (some zero) d = d
number_or (some (suc n)) d = suc n

abbrev pub env_of : Settings → Text
env_of s = text_or s.app_node_env (text_or s.node_env (codes "local"))

-- 'Insecure or missing JWT/OIDC configuration in production.'
pub data ConstructorError : Type 0 where
  insecure : ConstructorError

is_insecure : (secret jwks_uri : Text) → Bool
is_insecure secret jwks_uri =
    is_empty jwks_uri && (is_empty secret || text_eq secret (codes "super-secret"))

-- The constructor.
unfoldable pub new_token_service : Settings → Exec ConstructorError TokenConfig
unfolding is_insecure
new_token_service s =
    let secret = text_or s.secret [] in
    let jwks_uri = text_or s.jwks_uri [] in
    do
      throw_if (text_eq (env_of s) (codes "production") && is_insecure secret jwks_uri) insecure
      ok (record {
        secret = secret;
        issuer = text_or s.issuer (codes "bet-advise");
        audience = text_or s.audience (codes "mobile-app");
        jwks_uri = jwks_uri;
        tenant_claim_name = text_or s.tenant_claim_name (codes "tenant_id");
        clock_skew = number_or s.clock_skew 60;
        algorithms = elim s.algorithms [
          | none ↦ codes "RS256" ∷ codes "HS256" ∷ []
          | some names ↦ names
        ];
        cache_duration = number_or s.jwks_cache_duration 300000;
      })

throw_if-throw :
    {A : Type 0} (c : Bool) (x : A) → ((throw_if c insecure >> ok x) ≡ throw insecure) ↔ (c ≡ true)
throw_if-throw true x = (λ h. refl, λ h. refl)
throw_if-throw false x = (λ h. ground arith, λ h. ground arith)

is_insecure_iff :
    (env secret uri : Text)
    → ((text_eq env (codes "production") && is_insecure secret uri) ≡ true) ↔ (
        (env ≡ codes "production") × (uri ≡ []) × ((secret ≡ []) ⊎ (secret ≡ codes "super-secret")))
unfolding is_insecure
is_insecure_iff env secret [] = ground (
  arith,
  text_eq_iff env (codes "production"),
  is_empty_iff secret,
  text_eq_iff secret (codes "super-secret"),
)
  where
    is_empty_iff : (s : Text) → (is_empty s ≡ true) ↔ (s ≡ [])
    is_empty_iff [] = (λ h. refl, λ h. refl)
    is_empty_iff (c ∷ s) = (λ h. ground arith, λ h. ground arith)
is_insecure_iff env secret (c ∷ uri) = ground (arith, text_eq_iff env (codes "production"))

-- The constructor throws exactly in production, when there is no address of a JWKS and the secret
-- is missing, empty, or the one of the local environment; it returns in any other case.
pub new_token_service-throw_iff :
    (s : Settings)
    → (new_token_service s ≡ throw insecure) ↔ (
        (env_of s ≡ codes "production")
        × (text_or s.jwks_uri [] ≡ [])
        × ((text_or s.secret [] ≡ []) ⊎ (text_or s.secret [] ≡ codes "super-secret")))
unfolding new_token_service is_insecure
new_token_service-throw_iff s =
    let chosen =
      throw_if-throw
        (text_eq (env_of s) (codes "production")
          && is_insecure (text_or s.secret []) (text_or s.jwks_uri []))
        _ in
    let cases = is_insecure_iff (env_of s) (text_or s.secret []) (text_or s.jwks_uri []) in
    (λ h. cases.0 (chosen.0 h), λ h. chosen.1 (cases.1 h))

-- The options of `jwt.sign`; the lifetime is in seconds.
pub record SignOptions : Type 0 where
  pub issuer : Text
  pub audience : Text
  pub expires_in : ℕ
  pub algorithm : Text

abbrev pub options_of : TokenConfig → ℕ → SignOptions
options_of config expires_in = record {
  issuer = config.issuer;
  audience = config.audience;
  expires_in = expires_in;
  algorithm = codes "HS256";
}

module _ (sign : ℕ → Claims → Text → SignOptions → Exec Text Text) where
  -- `generateAccessToken`, with the clock in seconds: '60m'.
  unfoldable pub generate_access_token : TokenConfig → ℕ → Claims → Exec Text Text
  generate_access_token config now payload =
      sign now payload config.secret (options_of config (60 * 60))

  -- `generateRefreshToken`: '365d'.
  unfoldable pub generate_refresh_token : TokenConfig → ℕ → Claims → Exec Text Text
  generate_refresh_token config now payload =
      sign now payload config.secret (options_of config (365 * 24 * 60 * 60))

  module _ (decode : Text → Option TokenHeader)
      (verify : ℕ → TokenConfig → Text → Text → Exec Text Claims) where
    -- What is documented of `jsonwebtoken`: a token has the header of its algorithm, and until it
    -- expires it is verified under the key that signed it by whoever expects its issuer, its
    -- audience and its algorithm.
    pub record IsSigning : Type 0 where
      pub header :
          (issued : ℕ) (payload : Claims) (key token : Text) (o : SignOptions)
          → sign issued payload key o ≡ ok token
          → decode token ≡ some (record { alg = o.algorithm; kid = none })
      pub verified :
          (issued now : ℕ) (payload : Claims) (key token : Text) (o : SignOptions)
          (config : TokenConfig)
          → sign issued payload key o ≡ ok token
          → o.issuer ≡ config.issuer
          → o.audience ≡ config.audience
          → member o.algorithm config.algorithms ≡ true
          → issued ≤ now
          → now < issued + o.expires_in + config.clock_skew
          → verify now config token key ≡ ok payload

    signed-verified :
        IsSigning
        → (issued now expires_in : ℕ) (config : TokenConfig) (payload : Claims) (token : Text)
          (fetching : Fetching) (cache : JwksCache)
        → sign issued payload config.secret (options_of config expires_in) ≡ ok token
        → member (codes "HS256") config.algorithms ≡ true
        → issued ≤ now
        → now < issued + expires_in + config.clock_skew
        → verify_token decode (verify now) config fetching token cache ≡ (cache, ok payload)
    unfolding verify_token verify_header verify_under starts_with
    signed-verified laws issued now expires_in config payload token fetching cache signed allowed
          started fresh =
        let header =
          laws.header issued payload config.secret token (options_of config expires_in) signed in
        let verified =
          laws.verified issued now payload config.secret token (options_of config expires_in) config
            signed refl refl allowed started fresh in
        rw (header, verify_token) (rw (allowed, verify_header) (rw (verified, verify_under) refl))

    -- With a `jsonwebtoken` that does what is documented, and HS256 among the allowed algorithms:
    -- from the moment on at which an access token and a refresh token are issued, and for an hour
    -- and the skew, `verifyToken` reads the payload back out of either of them, without a look at
    -- the JWKS.
    pub verify_token-generate_access_token :
        IsSigning
        → (issued now : ℕ) (config : TokenConfig) (payload : Claims) (access refresh : Text)
          (fetching : Fetching) (cache : JwksCache)
        → generate_access_token config issued payload ≡ ok access
        → generate_refresh_token config issued payload ≡ ok refresh
        → member (codes "HS256") config.algorithms ≡ true
        → issued ≤ now
        → now < issued + 3600 + config.clock_skew
        → (verify_token decode (verify now) config fetching access cache ≡ (cache, ok payload))
          × (verify_token decode (verify now) config fetching refresh cache ≡ (cache, ok payload))
    unfolding generate_access_token generate_refresh_token
    verify_token-generate_access_token laws issued now config payload access refresh fetching cache
          accessed refreshed allowed started fresh =
        (
          signed-verified laws issued now 3600 config payload access fetching cache accessed allowed
              started fresh,
          signed-verified laws issued now 31536000 config payload refresh fetching cache refreshed
              allowed started (omega arith),
        )
