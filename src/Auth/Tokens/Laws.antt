-- ===== src/Auth/Tokens/Laws.antt =====
-- Which key a token is verified with.
use mathlib.Core.Path.{subst}
use bet_advise.Base.{
  ℕ, ◌≡◌, refl, ◌⊎◌, inl, inr, true, false, Option, some, Occurs, Bool-cases, Option-cases, arith,
}
use bet_advise.Base.Keyed.{find-Occurs}
use bet_advise.Base.Exec.{Exec, Exec-cases, ok, throw}
use bet_advise.Base.Text.{Text, codes, is_empty, starts_with, member}
use bet_advise.Auth.{Claims}
use bet_advise.Auth.Tokens.{
  Jwk, TokenHeader, TokenConfig, JwksCache, TokenError, Fetching, fetch_jwks, format_public_key,
  same_kid, find_key, is_stale, retry_key, look_up, get_signing_key, verify_under, verify_header,
  verify_token,
}

-- The key text is the certificate of a cached key with the id.
abbrev pub IsCached : JwksCache → Option Text → Text → Type 0
IsCached cache kid key =
    (k : Jwk) × Occurs k cache.jwks_keys
    × (same_kid k.kid kid ≡ true)
    × (format_public_key k ≡ ok key)

found-IsCached :
    (kid : Option Text) (cache cache' : JwksCache) (k : Jwk) (key : Text)
    → find_key kid cache ≡ some k
    → cache ≡ cache'
    → format_public_key k ≡ ok key
    → IsCached cache' kid key
found-IsCached kid cache cache' k key found same_cache formatted =
    let (inside, same) = find-Occurs (λ j. same_kid j.kid kid) cache.jwks_keys k found in
    (k, subst (λ c. Occurs k c.jwks_keys) same_cache inside, same, formatted)

retry_key-IsCached :
    (f : Fetching) (kid : Option Text) (cache cache' : JwksCache) (key : Text)
    → retry_key f kid cache ≡ (cache', ok key)
    → IsCached cache' kid key
unfolding retry_key
retry_key-IsCached f kid cache cache' key h = elim (Exec-cases (fetch_jwks f.second_at f.second)) [
  | inl (e, thrown) ↦ ground arith
  | inr (fetched, done) ↦ elim (Option-cases (find_key kid fetched)) [
    | inl missing ↦ ground arith
    | inr (k, found) ↦ found-IsCached kid fetched cache' k key found (ground arith) (ground arith)
  ]
]

look_up-IsCached :
    (f : Fetching) (kid : Option Text) (cache cache' : JwksCache) (key : Text)
    → look_up f kid cache ≡ (cache', ok key)
    → IsCached cache' kid key
unfolding look_up
look_up-IsCached f kid cache cache' key h = elim (Option-cases (find_key kid cache)) [
  | inl missing ↦ retry_key-IsCached f kid cache cache' key (ground arith)
  | inr (k, found) ↦ found-IsCached kid cache cache' k key found (ground arith) (ground arith)
]

get_signing_key-IsCached :
    (duration : ℕ) (f : Fetching) (kid : Option Text) (cache cache' : JwksCache) (key : Text)
    → get_signing_key duration f kid cache ≡ (cache', ok key)
    → IsCached cache' kid key
unfolding get_signing_key
get_signing_key-IsCached duration f kid cache cache' key h =
    elim (Bool-cases (is_stale duration f.now cache)) [
      | inr recent ↦ look_up-IsCached f kid cache cache' key (ground arith)
      | inl stale ↦ elim (Exec-cases (fetch_jwks f.first_at f.first)) [
        | inl (e, thrown) ↦ ground arith
        | inr (fetched, done) ↦ look_up-IsCached f kid fetched cache' key (ground arith)
      ]
    ]

module _ (decode : Text → Option TokenHeader)
    (verify : TokenConfig → Text → Text → Exec Text Claims) where
  verify_under-ok :
      (config : TokenConfig) (token : Text) (r : Exec TokenError Text) (claims : Claims)
      → verify_under decode verify config token r ≡ ok claims
      → (key : Text) × (r ≡ ok key) × (verify config token key ≡ ok claims)
  unfolding verify_under
  verify_under-ok config token (throw e) claims h = ground arith
  verify_under-ok config token (ok key) claims h = elim (Exec-cases (verify config token key)) [
    | inl (m, thrown) ↦ ground arith
    | inr (c, done) ↦ (key, refl, ground arith)
  ]

  signed-ok :
      (config : TokenConfig) (f : Fetching) (token : Text) (header : TokenHeader)
      (cache cache' : JwksCache) (claims : Claims) (g : JwksCache × Exec TokenError Text)
      → get_signing_key config.cache_duration f header.kid cache ≡ g
      → g.0 ≡ cache'
      → verify_under decode verify config token g.1 ≡ ok claims
      → (key : Text) × (verify config token key ≡ ok claims) × IsCached cache' header.kid key
  signed-ok config f token header cache cache' claims (c, r) e same h =
      let (key, got, accepted) = verify_under-ok config token r claims h in
      (
        key,
        accepted,
        get_signing_key-IsCached config.cache_duration f header.kid cache cache' key (ground arith),
      )

  -- A token is only accepted if its header names an allowed algorithm and `jwt.verify` accepts it
  -- under the key of that algorithm: for RS algorithms the certificate of a key with the token's
  -- id that the cache then holds, and for the others the secret. The secret never decides on a
  -- token with an RS algorithm.
  pub verify_token-ok :
      (config : TokenConfig) (f : Fetching) (token : Text) (cache cache' : JwksCache)
      (claims : Claims)
      → verify_token decode verify config f token cache ≡ (cache', ok claims)
      → (header : TokenHeader) × (key : Text) × (decode token ≡ some header)
        × (member header.alg config.algorithms ≡ true)
        × (verify config token key ≡ ok claims)
        × (((starts_with header.alg (codes "RS") ≡ false) × (key ≡ config.secret))
            ⊎ ((starts_with header.alg (codes "RS") ≡ true) × IsCached cache' header.kid key))
  unfolding verify_token verify_header verify_under
  verify_token-ok config f token cache cache' claims h = elim (Option-cases (decode token)) [
    | inl bad ↦ ground arith
    | inr (header, decoded) ↦ elim (Bool-cases (member header.alg config.algorithms)) [
      | inr forbidden ↦ ground arith
      | inl allowed ↦ elim (Bool-cases (starts_with header.alg (codes "RS"))) [
        | inr symmetric ↦
            let (key, same, accepted) =
              verify_under-ok config token (ok config.secret) claims (ground arith) in
            (header, key, decoded, allowed, accepted, inl (symmetric, ground arith))
        | inl asymmetric ↦ elim (Bool-cases (is_empty config.jwks_uri)) [
          | inl unset ↦ ground arith
          | inr set ↦
              let (key, accepted, cached) =
                signed-ok config f token header cache cache' claims _ refl (ground arith)
                  (ground arith) in
              (header, key, decoded, allowed, accepted, inr (asymmetric, cached))
        ]
      ]
    ]
  ]
