-- ===== src/Cache.antt =====
-- The cache over Redis: src/shared/infrastructure/cache/redis-cache.adapter.ts. Redis and the
-- printing and parsing of JSON are parameters.
pub mod Contract
use bet_advise.Base.{
  ℕ, zero, suc, Bool, true, false, Option, none, some, List, [], ◌∷◌, ◌++◌, if◌then◌else◌,
}
use bet_advise.Base.Exec.{Exec, ok, throw}
use bet_advise.Base.Text.{Text, codes, is_empty}

-- The commands GET, SET with or without EX, and DEL, at a time in milliseconds.
pub record Redis : Type 1 where
  pub State : Type 0
  pub get : ℕ → Text → State → Option Text
  pub set : ℕ → Text → Text → Option ℕ → State → State
  pub del : ℕ → Text → State → State

-- `JSON.stringify` and `JSON.parse`, where `none` is an exception, and the test for `null`.
pub record JsonText (Json : Type 0) : Type 0 where
  pub print : Json → Option Text
  pub parse : Text → Option Json
  pub is_null : Json → Bool

-- A command goes through, or it throws: before Redis has seen it, or after, when the answer is lost.
pub data Fate : Type 0 where
  through refused unanswered : Fate

-- `this.configService.get('redis.cacheDefaultTtlSeconds') || 300`
unfoldable pub default_ttl_of : Option ℕ → ℕ
default_ttl_of none = 300
default_ttl_of (some zero) = 300
default_ttl_of (some (suc n)) = suc n

unfoldable pub build_key : Text → Text
build_key key = codes "bet-advise:" ++ key

-- `ttlSeconds !== undefined ? ttlSeconds : this.defaultTtlSeconds`
abbrev pub ttl_of : ℕ → Option ℕ → ℕ
ttl_of default_ttl none = default_ttl
ttl_of default_ttl (some ttl) = ttl

-- The lifetime that SET is given: a time of 0 is none.
abbrev pub expiry_option : ℕ → Option ℕ
expiry_option zero = none
expiry_option (suc n) = some (suc n)

-- A command on the state of Redis, and one that asks for a value.
abbrev write : {S : Type 0} → Fate → S → S → S
write through before after = after
write refused before after = before
write unanswered before after = after

abbrev answer : {A : Type 0} → Fate → A → Option A
answer through a = some a
answer _ a = none

module _ {Json : Type 0} (js : JsonText Json) where
  -- `JSON.parse(data)`, where `null` stands for a missing value as well.
  parsed : Option Json → Option Json
  parsed none = none
  parsed (some j) = if js.is_null j then none else some j

  -- From the answer of Redis on: an exception, a missing value and an empty one are `null`.
  pub read : Option (Option Text) → Option Json
  unfolding parsed
  read none = none
  read (some none) = none
  read (some (some data_text)) = if is_empty data_text then none else parsed (js.parse data_text)

  module _ (r : Redis) where
    -- `get`
    unfoldable pub get : ℕ → Fate → Text → r.State → Option Json
    unfolding read build_key
    get now fate key s = read (answer fate (r.get now (build_key key) s))

    store_text : ℕ → Fate → Text → Option Text → ℕ → r.State → r.State
    unfolding build_key
    store_text now fate key none ttl s = s
    store_text now fate key (some serialized) ttl s =
        write fate s (r.set now (build_key key) serialized (expiry_option ttl) s)

    -- `set`; it catches what is thrown.
    unfoldable pub set : ℕ → ℕ → Fate → Text → Json → Option ℕ → r.State → r.State
    unfolding store_text
    set default_ttl now fate key value ttl s =
        store_text now fate key (js.print value) (ttl_of default_ttl ttl) s

    -- `delete`
    unfoldable pub delete : ℕ → Fate → Text → r.State → r.State
    unfolding build_key
    delete now fate key s = write fate s (r.del now (build_key key) s)

    module _ {E : Type 0} (default_ttl : ℕ) where
      -- `remember`, after its `get`; the factory returns a value or throws.
      or_fresh :
          ℕ → Fate → Text → ℕ → Exec E Json → Option Json → r.State → r.State × Exec E (Option Json)
      unfolding set
      or_fresh now fate key ttl factory (some cached) s = (s, ok (some cached))
      or_fresh now fate key ttl (throw e) none s = (s, throw e)
      or_fresh now fate key ttl (ok fresh) none s =
          (set default_ttl now fate key fresh (some ttl) s, ok (some fresh))

      -- `remember`, with the time and the fate of each of its two commands.
      unfoldable pub remember :
          ℕ → Fate → ℕ → Fate → Text → ℕ → Exec E Json → r.State → r.State × Exec E (Option Json)
      unfolding or_fresh get
      remember now fate later later_fate key ttl factory s =
          or_fresh later later_fate key ttl factory (get now fate key s) s

-- `ping`, where `send` is what Redis answers: it is logged and thrown on.
unfoldable pub ping : {E : Type 0} → Exec E Text → Exec E Text
ping (ok pong) = ok pong
ping (throw e) = throw e
