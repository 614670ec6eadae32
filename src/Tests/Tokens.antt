-- ===== src/Tests/Tokens.antt =====
-- A token that is signed with a key that the cache has to fetch.
use bet_advise.Base.{◌≡◌, refl, ◌⊎◌, true, false, Option, none, some, [], ◌∷◌, if◌then◌else◌}
use bet_advise.Base.Exec.{Exec, ok, throw}
use bet_advise.Base.Text.{Text, codes, text_eq, starts_with, member}
use bet_advise.Auth.{Claims, text, other}
use bet_advise.Auth.Tokens.{
  TokenHeader, TokenConfig, JwksCache, Fetching, get_signing_key, format_public_key, fetch_jwks,
  verify_token,
}
use bet_advise.Auth.Tokens.Laws.{IsCached, verify_token-ok}

abbrev pub config : TokenConfig
config = record {
  secret = codes "s";
  issuer = codes "bet-advise";
  audience = codes "mobile-app";
  jwks_uri = codes "https://keys";
  tenant_claim_name = codes "tenant_id";
  clock_skew = 60;
  algorithms = codes "RS256" ∷ codes "HS256" ∷ [];
  cache_duration = 300000;
}

abbrev decode : Text → Option TokenHeader
decode token = some (record { alg = codes "RS256"; kid = some (codes "k1") })

abbrev claims : Claims
claims = record {
  sub = some (codes "u1");
  id = none;
  tenant_id = some (codes "t1");
  tenant_id_camel = none;
  scope = text (codes "advice:read");
  scopes = other;
  email = none;
  roles = none;
}

abbrev verify : TokenConfig → Text → Text → Exec Text Claims
verify c token key = if text_eq key c.secret then throw (codes "invalid signature") else ok claims

abbrev pub fetching : Fetching
fetching = record {
  now = 1000;
  first = some (record { kid = some (codes "k1"); certificate = some (codes "abc") } ∷ []);
  first_at = 1010;
  second = none;
  second_at = 1020;
}

abbrev pub unfilled : JwksCache
unfilled = record { jwks_keys = []; last_fetch_time = 0 }

abbrev filled : JwksCache
filled = record {
  jwks_keys = record { kid = some (codes "k1"); certificate = some (codes "abc") } ∷ [];
  last_fetch_time = 1010;
}

token_verified :
    verify_token decode verify config fetching (codes "token") unfilled ≡ (filled, ok claims)
unfolding verify_token get_signing_key fetch_jwks format_public_key text_eq member starts_with
token_verified = refl

verify_token-ok_example :
    (header : TokenHeader) × (key : Text) × (decode (codes "token") ≡ some header)
    × (member header.alg config.algorithms ≡ true)
    × (verify config (codes "token") key ≡ ok claims)
    × (((starts_with header.alg (codes "RS") ≡ false) × (key ≡ config.secret))
        ⊎ ((starts_with header.alg (codes "RS") ≡ true) × IsCached filled header.kid key))
verify_token-ok_example =
    verify_token-ok decode verify config fetching (codes "token") unfilled filled claims
      token_verified
