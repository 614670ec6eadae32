-- ===== src/Cache/Contract.antt =====
-- What the cache promises: a function from keys to values that may expire. It knows neither JSON
-- texts nor key prefixes nor Redis.
pub mod Refines
use bet_advise.Base.{
  ℕ, ◌+◌, ◌*◌, ◌≤◌, Bool, true, false, Option, none, some, List, [], ◌∷◌, ltb, if◌then◌else◌,
}
use bet_advise.Base.Exec.{Exec, ok, throw}
use bet_advise.Base.Text.{Text, text_eq}
use bet_advise.Cache.{Fate, through, refused, unanswered, JsonText, expiry_option, ttl_of}

pub record Cached (Json : Type 0) : Type 0 where
  pub value : Json
  pub expires_at : Option ℕ

abbrev pub Contents : Type 0 → Type 0
Contents Json = Text → Option (Cached Json)

abbrev pub is_live : ℕ → Option ℕ → Bool
is_live now none = true
is_live now (some at) = ltb now at

abbrev pub expiry_of : ℕ → Option ℕ → Option ℕ
expiry_of now none = none
expiry_of now (some seconds) = some (now + 1000 * seconds)

-- A call of the cache.
pub data Op (E Json : Type 0) : Type 0 where
  get : Text → Op E Json
  set : Text → Json → Option ℕ → Op E Json
  delete : Text → Op E Json
  remember : Text → ℕ → Exec E Json → Op E Json

-- A call, with the times and the fates of the command that reads and of the one that writes.
pub record Call (E Json : Type 0) : Type 0 where
  pub op : Op E Json
  pub read_at : ℕ
  pub reading : Fate
  pub written_at : ℕ
  pub writing : Fate

-- Time does not run backwards.
abbrev pub IsTimed : {E Json : Type 0} → ℕ → List (Call E Json) → Type 0
IsTimed now [] = Unit
IsTimed now (c ∷ cs) = (now ≤ c.read_at) × (c.read_at ≤ c.written_at) × IsTimed c.written_at cs

module _ {Json : Type 0} (js : JsonText Json) where
  -- A value is seen until it expires; `null` is as good as none.
  pub seen : ℕ → Option (Cached Json) → Option Json
  seen now none = none
  seen now (some c) =
      if is_live now c.expires_at then if js.is_null c.value then none else some c.value else none

  abbrev pub replaced : Contents Json → Text → Option (Cached Json) → Contents Json
  replaced a key new q = if text_eq key q then new else a q

  abbrev pub spec_get : ℕ → Fate → Text → Contents Json → Option Json
  spec_get now through key a = seen now (a key)
  spec_get now _ key a = none

  -- A value that has no text is not kept, and what was there stays.
  pub spec_set : ℕ → Fate → Text → Json → ℕ → Contents Json → Contents Json
  spec_set now refused key value ttl a = a
  spec_set now _ key value ttl a = elim (js.print value) [
    | none ↦ a
    | some _ ↦
        replaced a key
          (some (record { value = value; expires_at = expiry_of now (expiry_option ttl) }))
  ]

  pub spec_delete : Fate → Text → Contents Json → Contents Json
  spec_delete refused key a = a
  spec_delete _ key a = replaced a key none

  module _ {E : Type 0} (default_ttl : ℕ) where
    pub spec_remember :
        Call E Json
        → Text
        → ℕ
        → Exec E Json
        → Option Json
        → Contents Json
        → Contents Json × Exec E (Option Json)
    unfolding spec_set
    spec_remember c key ttl factory (some cached) a = (a, ok (some cached))
    spec_remember c key ttl (throw e) none a = (a, throw e)
    spec_remember c key ttl (ok fresh) none a =
        (spec_set c.written_at c.writing key fresh ttl a, ok (some fresh))

    pub spec_step : Call E Json → Op E Json → Contents Json → Contents Json × Exec E (Option Json)
    unfolding spec_set spec_delete spec_remember
    spec_step c (get key) a = (a, ok (spec_get c.read_at c.reading key a))
    spec_step c (set key value ttl) a =
        (spec_set c.written_at c.writing key value (ttl_of default_ttl ttl) a, ok none)
    spec_step c (delete key) a = (spec_delete c.writing key a, ok none)
    spec_step c (remember key ttl factory) a =
        spec_remember c key ttl factory (spec_get c.read_at c.reading key a) a

    pub spec_run : List (Call E Json) → Contents Json → List (Exec E (Option Json))
    unfolding spec_step
    spec_run [] a = []
    spec_run (c ∷ cs) a = let (a', answer) = spec_step c c.op a in answer ∷ spec_run cs a'
