-- ===== src/Cache/Contract/Refines.antt =====
-- The adapter implements the contract.
use bet_advise.Base.{
  ◌≡◌, refl, ap, inl, inr, ℕ, ◌≤◌, false, Bool-cases, Option, none, some, Option-cases, List, [],
  ◌∷◌, if◌then◌else◌, arith,
}
use bet_advise.Base.Exec.{Exec, ok, throw}
use bet_advise.Base.Text.{Text, text_eq, is_empty}
use bet_advise.Cache.{
  Fate, through, refused, unanswered, Redis, JsonText, expiry_option, ttl_of, build_key, parsed,
  read, store_text, or_fresh,
}
use bet_advise.Cache
use bet_advise.Cache.Contract.{
  Contents, is_live, expiry_of, Op, get, set, delete, remember, Call, IsTimed, seen, replaced,
  spec_get, spec_set, spec_delete, spec_remember, spec_step, spec_run,
}

-- What is documented of Redis.
pub record IsRedis (r : Redis) : Type 0 where
  pub get_set :
      (now later : ℕ) (key q value : Text) (seconds : Option ℕ) (s : r.State)
      → now ≤ later
      → r.get later q (r.set now key value seconds s) ≡ (
          if text_eq key q
          then if is_live later (expiry_of now seconds) then some value else none
          else r.get later q s)
  pub get_del :
      (now later : ℕ) (key q : Text) (s : r.State)
      → now ≤ later
      → r.get later q (r.del now key s) ≡ (if text_eq key q then none else r.get later q s)

-- What is documented of JSON: a printed value is not empty, and is parsed back.
pub record IsJson {Json : Type 0} (js : JsonText Json) : Type 0 where
  pub parse_print : (j : Json) (t : Text) → js.print j ≡ some t → js.parse t ≡ some j
  pub print_filled : (j : Json) (t : Text) → js.print j ≡ some t → is_empty t ≡ false

build_key_eq : (k q : Text) → text_eq (build_key k) (build_key q) ≡ text_eq k q
unfolding build_key text_eq
build_key_eq k q = refl

module _ {Json : Type 0} (js : JsonText Json) (r : Redis) where
  -- From `now` on, each key reads as the contents say.
  Agrees : ℕ → r.State → Contents Json → Type 0
  Agrees now s a =
      (later : ℕ) (key : Text)
      → now ≤ later
      → read js (some (r.get later (build_key key) s)) ≡ seen js later (a key)

  -- One call on the adapter, and a run of them.
  module _ {E : Type 0} (default_ttl : ℕ) where
    abbrev pub step : Call E Json → Op E Json → r.State → r.State × Exec E (Option Json)
    step c (get key) s = (s, ok (Cache.get js r c.read_at c.reading key s))
    step c (set key value ttl) s =
        (Cache.set js r default_ttl c.written_at c.writing key value ttl s, ok none)
    step c (delete key) s = (Cache.delete js r c.written_at c.writing key s, ok none)
    step c (remember key ttl factory) s =
        Cache.remember js r default_ttl c.read_at c.reading c.written_at c.writing key ttl factory s

    pub run : List (Call E Json) → r.State → List (Exec E (Option Json))
    run [] s = []
    run (c ∷ cs) s = let (s', answer) = step c c.op s in answer ∷ run cs s'

  module _ (laws : IsRedis r) (json : IsJson js) where
    gone-Agrees :
        (now : ℕ) (key : Text) (s : r.State) (a : Contents Json)
        → Agrees now s a
        → Agrees now (r.del now (build_key key) s) (replaced js a key none)
    unfolding Agrees seen read
    gone-Agrees now key s a agrees later q after =
        rw (laws.get_del now later (build_key key) (build_key q) s after) (
          rw (build_key_eq key q) (elim (Bool-cases (text_eq key q)) [
            | inr other ↦ rw other (agrees later q after)
            | inl same ↦ rw same refl
          ]))

    -- A value that was read is one that was printed.
    read-printed :
        (v : Json) (t : Text)
        → js.print v ≡ some t
        → read js (some (some t)) ≡ (if js.is_null v then none else some v)
    unfolding read parsed
    read-printed v t printed =
        rw (json.print_filled v t printed) (rw (json.parse_print v t printed) refl)

    later-Agrees :
        (now at : ℕ) (s : r.State) (a : Contents Json) → now ≤ at → Agrees now s a → Agrees at s a
    unfolding Agrees
    later-Agrees now at s a h agrees later key after = agrees later key (omega arith)

    set_text-Agrees :
        (now ttl : ℕ) (key t : Text) (v : Json) (s : r.State) (a : Contents Json)
        → js.print v ≡ some t
        → Agrees now s a
        → Agrees now (r.set now (build_key key) t (expiry_option ttl) s) (
            replaced js a key
              (some (record { value = v; expires_at = expiry_of now (expiry_option ttl) })))
    unfolding Agrees seen read
    set_text-Agrees now ttl key t v s a printed agrees later q after =
        rw (laws.get_set now later (build_key key) (build_key q) t (expiry_option ttl) s after) (
          rw (build_key_eq key q) (elim (Bool-cases (text_eq key q)) [
            | inr other ↦ rw other (agrees later q after)
            | inl same ↦
                rw same (elim (Bool-cases (is_live later (expiry_of now (expiry_option ttl)))) [
                  | inl live ↦ rw live (read-printed v t printed)
                  | inr dead ↦ rw dead refl
                ])
          ]))

    set-Agrees :
        (now at ttl : ℕ) (fate : Fate) (key : Text) (v : Json) (s : r.State) (a : Contents Json)
        → now ≤ at
        → Agrees now s a
        → Agrees at
            (store_text js r at fate key (js.print v) ttl s)
            (spec_set js at fate key v ttl a)
    unfolding store_text spec_set
    set-Agrees now at ttl fate key v s a h agrees = elim (Option-cases (js.print v)) [
      | inl unprinted ↦ rw (unprinted, store_text) (unprinted-Agrees fate unprinted)
      | inr (t, printed) ↦ rw (printed, store_text) (printed-Agrees t fate printed)
    ]
      where
        at_write : Agrees at s a
        at_write = later-Agrees now at s a h agrees

        unprinted-Agrees :
            (fate : Fate) → js.print v ≡ none → Agrees at s (spec_set js at fate key v ttl a)
        unprinted-Agrees through unprinted = rw (unprinted, spec_set) at_write
        unprinted-Agrees refused unprinted = at_write
        unprinted-Agrees unanswered unprinted = rw (unprinted, spec_set) at_write

        printed-Agrees :
            (t : Text) (fate : Fate)
            → js.print v ≡ some t
            → Agrees at
                (store_text js r at fate key (some t) ttl s)
                (spec_set js at fate key v ttl a)
        printed-Agrees t through printed =
            rw (printed, spec_set) (set_text-Agrees at ttl key t v s a printed at_write)
        printed-Agrees t refused printed = at_write
        printed-Agrees t unanswered printed =
            rw (printed, spec_set) (set_text-Agrees at ttl key t v s a printed at_write)

    del-Agrees :
        (now at : ℕ) (fate : Fate) (key : Text) (s : r.State) (a : Contents Json)
        → now ≤ at
        → Agrees now s a
        → Agrees at (Cache.delete js r at fate key s) (spec_delete js fate key a)
    unfolding Cache.delete spec_delete
    del-Agrees now at refused key s a h agrees = later-Agrees now at s a h agrees
    del-Agrees now at through key s a h agrees =
        gone-Agrees at key s a (later-Agrees now at s a h agrees)
    del-Agrees now at unanswered key s a h agrees =
        gone-Agrees at key s a (later-Agrees now at s a h agrees)

    get-Agrees :
        (now at : ℕ) (fate : Fate) (key : Text) (s : r.State) (a : Contents Json)
        → now ≤ at
        → Agrees now s a
        → Cache.get js r at fate key s ≡ spec_get js at fate key a
    unfolding Cache.get read Agrees
    get-Agrees now at through key s a h agrees = agrees at key h
    get-Agrees now at refused key s a h agrees = refl
    get-Agrees now at unanswered key s a h agrees = refl

    module _ {E : Type 0} (default_ttl : ℕ) where
      or_fresh-Agrees :
          (now : ℕ) (c : Call E Json) (key : Text) (ttl : ℕ) (factory : Exec E Json)
          (cached : Option Json) (s : r.State) (a : Contents Json)
          → now ≤ c.written_at
          → Agrees now s a
          → Agrees c.written_at
              (or_fresh js r default_ttl c.written_at c.writing key ttl factory cached s).0
              (spec_remember js default_ttl c key ttl factory cached a).0
            × ((or_fresh js r default_ttl c.written_at c.writing key ttl factory cached s).1
                ≡ (spec_remember js default_ttl c key ttl factory cached a).1)
      unfolding or_fresh spec_remember Cache.set
      or_fresh-Agrees now c key ttl factory (some cached) s a h agrees =
          (later-Agrees now c.written_at s a h agrees, refl)
      or_fresh-Agrees now c key ttl (throw e) none s a h agrees =
          (later-Agrees now c.written_at s a h agrees, refl)
      or_fresh-Agrees now c key ttl (ok fresh) none s a h agrees =
          (set-Agrees now c.written_at ttl c.writing key fresh s a h agrees, refl)

      step-Agrees :
          (now : ℕ) (c : Call E Json) (op : Op E Json) (s : r.State) (a : Contents Json)
          → now ≤ c.read_at
          → c.read_at ≤ c.written_at
          → Agrees now s a
          → Agrees c.written_at (step default_ttl c op s).0 (spec_step js default_ttl c op a).0
            × ((step default_ttl c op s).1 ≡ (spec_step js default_ttl c op a).1)
      unfolding spec_step Cache.set Cache.remember
      step-Agrees now c (get key) s a h h' agrees = (
        later-Agrees now c.written_at s a (omega arith) agrees,
        ap ok (get-Agrees now c.read_at c.reading key s a h agrees),
      )
      step-Agrees now c (set key value ttl) s a h h' agrees = (
        set-Agrees now c.written_at (ttl_of default_ttl ttl) c.writing key value s a (omega arith)
            agrees,
        refl,
      )
      step-Agrees now c (delete key) s a h h' agrees =
          (del-Agrees now c.written_at c.writing key s a (omega arith) agrees, refl)
      step-Agrees now c (remember key ttl factory) s a h h' agrees =
          rw (get-Agrees now c.read_at c.reading key s a h agrees) (
            or_fresh-Agrees now c key ttl factory (spec_get js c.read_at c.reading key a) s a
              (omega arith) agrees)

      run-Agrees :
          (now : ℕ) (calls : List (Call E Json)) (s : r.State) (a : Contents Json)
          → IsTimed now calls
          → Agrees now s a
          → run default_ttl calls s ≡ spec_run js default_ttl calls a
      unfolding run spec_run
      run-Agrees now [] s a timed agrees = refl
      run-Agrees now (c ∷ cs) s a (h, h', timed) agrees =
          let (agrees', same) = step-Agrees now c c.op s a h h' agrees in
          let rest =
            run-Agrees c.written_at cs (step default_ttl c c.op s).0
              (spec_step js default_ttl c c.op a).0 timed agrees' in
          rw same (rw rest refl)

      -- On a Redis and a JSON that keep what is documented of them: over any run of `get`, `set`,
      -- `delete` and `remember` whose times do not run backwards, whichever commands are refused or
      -- lose their answer, the cache answers every call as a function from keys to values that
      -- expire does, if Redis holds none of its keys at first.
      pub run_refines :
          (now : ℕ) (calls : List (Call E Json)) (s : r.State)
          → IsTimed now calls
          → ((later : ℕ) (key : Text) → r.get later (build_key key) s ≡ none)
          → run default_ttl calls s ≡ spec_run js default_ttl calls (λ key. none)
      unfolding Agrees seen read
      run_refines now calls s timed empty =
          run-Agrees now calls s (λ key. none) timed (λ later key h. rw (empty later key) refl)
