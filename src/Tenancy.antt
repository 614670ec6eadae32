-- ===== src/Tenancy.antt =====
-- Tenant identifiers and the tenant context: src/shared/infrastructure/tenant/tenant-context.ts.
-- The store of `AsyncLocalStorage` is an argument: what is current where a call stands.
pub mod Sanitize
pub mod Middleware
pub mod Subscriber
pub mod Policy
use bet_advise.Base.{
  ℕ, ◌+◌, Bool, true, false, not, ◌&&◌, ◌||◌, Option, none, some, List, [], ◌∷◌, ◌++◌, filter, leb,
  ◌==◌, if◌then◌else◌,
}
use bet_advise.Base.Exec.{Exec, ok, throw}
use bet_advise.Base.Text.{Text, is_empty}

-- White space and line ends, as `trim` knows them.
abbrev pub is_space : ℕ → Bool
is_space c =
    leb 9 c && leb c 13
    || c == 32
    || c == 160
    || c == 5760
    || leb 8192 c && leb c 8202
    || c == 8232
    || c == 8233
    || c == 8239
    || c == 8287
    || c == 12288
    || c == 65279

trim_start : Text → Text
trim_start [] = []
trim_start (c ∷ s) = let rest = trim_start s in if is_space c then rest else c ∷ s

trim_end : Text → Text
trim_end [] = []
trim_end (c ∷ s) = let rest = trim_end s in if is_space c && is_empty rest then [] else c ∷ rest

trim : Text → Text
unfolding trim_start trim_end
trim s = trim_end (trim_start s)

-- `toLowerCase` of a code unit. Besides A to Z only U+0130 and U+212A become ASCII letters. Other
-- characters stay outside ASCII; they are left as they are, since every use here looks at ASCII
-- alone.
unfoldable pub lower : ℕ → Text
lower c =
    if leb b'A' c && leb c b'Z'
    then (c + 32) ∷ []
    else if c == 304
    then b'i' ∷ 775 ∷ []
    else if c == 8490
    then b'k' ∷ []
    else c ∷ []

unfoldable pub to_lower_case : Text → Text
unfolding lower
to_lower_case [] = []
to_lower_case (c ∷ s) = lower c ++ to_lower_case s

-- The characters that `replace(/[^a-z0-9_-]/g, '')` keeps.
abbrev pub is_allowed : ℕ → Bool
is_allowed c = leb b'a' c && leb c b'z' || leb b'0' c && leb c b'9' || c == b'_' || c == b'-'

-- `tenantId.trim().toLowerCase().replace(/[^a-z0-9_-]/g, '')`
unfoldable pub sanitize : Text → Text
unfolding trim to_lower_case
sanitize s = filter is_allowed (to_lower_case (trim s))

pub data TenantError : Type 0 where
  invalid_identifier no_active_context : TenantError

-- The tenant of the store, if one is current.
abbrev pub Store : Type 0
Store = Option Text

-- `TenantContext.run`
unfoldable pub run {ℓ} : {A : Type ℓ} → Text → (Store → A) → Exec TenantError A
run tenant_id callback =
    let sanitized = sanitize tenant_id in
    if is_empty sanitized then throw invalid_identifier else ok (callback (some sanitized))

-- `TenantContext.getTenantId`
unfoldable pub get_tenant_id : Store → Exec TenantError Text
get_tenant_id none = throw no_active_context
get_tenant_id (some t) = if is_empty t then throw no_active_context else ok t
