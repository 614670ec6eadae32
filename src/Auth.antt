-- ===== src/Auth.antt =====
-- Principals and token claims: src/auth/domain/principal.interface.ts, and the reading of an
-- `Authorization` header and of a verified payload that the JWT guard and the tenant middleware
-- share.
pub mod Guards
pub mod Tokens
use bet_advise.Base.{
  ℕ, Bool, true, false, not, Option, none, some, List, [], ◌∷◌, ◌++◌, filter, drop, ◌==◌,
  if◌then◌else◌,
}
use bet_advise.Base.Text.{Text, codes, is_empty, starts_with, text_or}

pub record Principal : Type 0 where
  pub id : Text
  pub tenant_id : Text
  pub scopes : List Text
  pub email : Option Text
  pub roles : Option (List Text)

-- A claim that may be a text, an array of texts, or neither.
pub data Claim : Type 0 where
  text : Text → Claim
  array : List Text → Claim
  other : Claim

-- The payload of a token, as far as it is read. The ids and tenants of a payload are texts;
-- tenant_id_camel is its `tenantId`.
pub record Claims : Type 0 where
  pub sub : Option Text
  pub id : Option Text
  pub tenant_id : Option Text
  pub tenant_id_camel : Option Text
  pub scope : Claim
  pub scopes : Claim
  pub email : Option Text
  pub roles : Option (List Text)

-- `authHeader.startsWith('Bearer ') ? authHeader.substring(7) : authHeader`
unfoldable pub token_of : Text → Text
token_of header = if starts_with header (codes "Bearer ") then drop 7 header else header

split_from : Text → Text → List Text
split_from cur [] = cur ∷ []
split_from cur (c ∷ s) =
    let closed = split_from [] s in
    let longer = split_from (cur ++ c ∷ []) s in if c == b' ' then cur ∷ closed else longer

-- `scope.split(' ').filter((s) => s.length > 0)`
unfoldable pub words : Text → List Text
unfolding split_from
words s = filter (λ w. not (is_empty w)) (split_from [] s)

unfoldable pub principal_of : Claims → List Text → Principal
principal_of payload scopes = record {
  id = text_or payload.sub (text_or payload.id (codes "unknown"));
  tenant_id = text_or payload.tenant_id (text_or payload.tenant_id_camel []);
  scopes = scopes;
  email = payload.email;
  roles = payload.roles;
}
