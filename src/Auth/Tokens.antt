-- ===== src/Auth/Tokens.antt =====
-- The token service: src/auth/infrastructure/services/jwt-token.service.ts. `jwt.decode` and
-- `jwt.verify`, the clock, and what the JWKS address answers are arguments.
pub mod Laws
pub mod Issue
use bet_advise.Base.{
  ℕ, ◌+◌, Bool, true, false, not, ◌||◌, Option, none, some, List, [], ◌∷◌, ◌++◌, find, length, ltb,
  ◌==◌, if◌then◌else◌,
}
use bet_advise.Base.Exec.{Exec, ok, throw}
use bet_advise.Base.Text.{Text, codes, is_empty, text_eq, starts_with, member}
use bet_advise.Auth.{Claims}

-- A key of the JWKS: its id, and the first certificate of its `x5c`.
pub record Jwk : Type 0 where
  pub kid : Option Text
  pub certificate : Option Text

pub record TokenHeader : Type 0 where
  pub alg : Text
  pub kid : Option Text

-- What the constructor reads; the durations are in the unit that the code uses.
pub record TokenConfig : Type 0 where
  pub secret : Text
  pub issuer : Text
  pub audience : Text
  pub jwks_uri : Text
  pub tenant_claim_name : Text
  pub clock_skew : ℕ
  pub algorithms : List Text
  pub cache_duration : ℕ

pub record JwksCache : Type 0 where
  pub jwks_keys : List Jwk
  pub last_fetch_time : ℕ

pub data TokenError : Type 0 where
  invalid_format : TokenError
  algorithm_not_allowed : Text → TokenError
  no_jwks_uri : TokenError
  fetch_failed : TokenError
  key_not_found : Option Text → TokenError
  no_certificate : TokenError
  rejected : Text → TokenError

-- The clock, and what a fetch finds because the cache is stale, and one because a key is missing:
-- the keys, or a failure of any kind; with the clock after each.
pub record Fetching : Type 0 where
  pub now : ℕ
  pub first : Option (List Jwk)
  pub first_at : ℕ
  pub second : Option (List Jwk)
  pub second_at : ℕ

unfoldable pub fetch_jwks : ℕ → Option (List Jwk) → Exec TokenError JwksCache
fetch_jwks now none = throw fetch_failed
fetch_jwks now (some keys) = ok (record { jwks_keys = keys; last_fetch_time = now })

-- `cert.match(/.{1,64}/g).join('\n')`: a certificate has no line breaks of its own, and a new line
-- (10) starts after each 64 code units.
lines : ℕ → Text → Text
lines k [] = []
lines k (c ∷ s) =
    let same = lines (k + 1) s in
    let next = lines 1 s in if k == 64 then 10 ∷ c ∷ next else c ∷ same

-- `formatPublicKey`
unfoldable pub format_public_key : Jwk → Exec TokenError Text
unfolding lines
format_public_key key = elim key.certificate [
  | none ↦ throw no_certificate
  | some cert ↦
      if is_empty cert
      then throw no_certificate
      else ok (
          codes "-----BEGIN CERTIFICATE-----"
          ++ 10 ∷ lines 0 cert
          ++ 10 ∷ codes "-----END CERTIFICATE-----")
]

-- `k.kid === kid`
abbrev pub same_kid : Option Text → Option Text → Bool
same_kid none none = true
same_kid (some a) (some b) = text_eq a b
same_kid _ _ = false

-- `jwksKeys.find((k) => k.kid === kid)`
abbrev pub find_key : Option Text → JwksCache → Option Jwk
find_key kid cache = find (λ k. same_kid k.kid kid) cache.jwks_keys

-- The second look, after another fetch.
retry_key : Fetching → Option Text → JwksCache → JwksCache × Exec TokenError Text
retry_key fetching kid cache = elim (fetch_jwks fetching.second_at fetching.second) [
  | throw e ↦ (cache, throw e)
  | ok cache' ↦ elim (find_key kid cache') [
    | none ↦ (cache', throw (key_not_found kid))
    | some key ↦ (cache', format_public_key key)
  ]
]

look_up : Fetching → Option Text → JwksCache → JwksCache × Exec TokenError Text
unfolding retry_key
look_up fetching kid cache = elim (find_key kid cache) [
  | none ↦ retry_key fetching kid cache
  | some key ↦ (cache, format_public_key key)
]

-- The cache is empty, or older than its duration.
abbrev is_stale : ℕ → ℕ → JwksCache → Bool
is_stale duration now cache =
    length cache.jwks_keys == 0 || ltb (cache.last_fetch_time + duration) now

-- `getSigningKey`: the cache after it, and the key.
unfoldable pub get_signing_key :
    ℕ → Fetching → Option Text → JwksCache → JwksCache × Exec TokenError Text
unfolding look_up
get_signing_key duration fetching kid cache =
    if not (is_stale duration fetching.now cache)
    then look_up fetching kid cache
    else elim (fetch_jwks fetching.first_at fetching.first) [
      | throw e ↦ (cache, throw e)
      | ok cache' ↦ look_up fetching kid cache'
    ]

module _ (decode : Text → Option TokenHeader)
    (verify : TokenConfig → Text → Text → Exec Text Claims) where
  -- `jwt.verify` under a key, with the issuer, the audience, the skew and the algorithms.
  verify_under : TokenConfig → Text → Exec TokenError Text → Exec TokenError Claims
  verify_under config token (throw e) = throw e
  verify_under config token (ok key) = elim (verify config token key) [
    | throw m ↦ throw (rejected m)
    | ok claims ↦ ok claims
  ]

  verify_header :
      TokenConfig → Fetching → Text → TokenHeader → JwksCache → JwksCache × Exec TokenError Claims
  unfolding verify_under
  verify_header config fetching token header cache =
      if not (member header.alg config.algorithms)
      then (cache, throw (algorithm_not_allowed header.alg))
      else if not (starts_with header.alg (codes "RS"))
      then (cache, verify_under config token (ok config.secret))
      else if is_empty config.jwks_uri
      then (cache, throw no_jwks_uri)
      else let (cache', key) = get_signing_key config.cache_duration fetching header.kid cache in
        (cache', verify_under config token key)

  -- `verifyToken`: the cache after it, and the claims.
  unfoldable pub verify_token :
      TokenConfig → Fetching → Text → JwksCache → JwksCache × Exec TokenError Claims
  unfolding verify_header
  verify_token config fetching token cache = elim (decode token) [
    | none ↦ (cache, throw invalid_format)
    | some header ↦ verify_header config fetching token header cache
  ]
