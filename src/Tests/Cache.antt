-- ===== src/Tests/Cache.antt =====
-- A Redis that is a function, and a JSON whose texts carry a leading character.
use bet_advise.Base.{
  ◌≡◌, refl, inl, inr, ℕ, Bool-cases, Option, none, some, List, [], ◌∷◌, if◌then◌else◌, arith,
}
use bet_advise.Base.Exec.{ok}
use bet_advise.Base.Text.{Text, text_eq, codes, is_empty}
use bet_advise.Cache.{Fate, through, refused, Redis, JsonText}
use bet_advise.Cache.Contract.{is_live, expiry_of, Op, get, delete, remember, Call, spec_run}
use bet_advise.Cache.Contract.Refines.{IsRedis, IsJson, run, run_refines}

abbrev Rows : Type 0
Rows = Text → Option (Text × Option ℕ)

abbrev live_text : ℕ → Option (Text × Option ℕ) → Option Text
live_text now none = none
live_text now (some (value, expiry)) = if is_live now expiry then some value else none

abbrev redis : Redis
redis = record {
  State = Rows;
  get = λ now key s. live_text now (s key);
  set = λ now key value seconds s q.
      if text_eq key q then some (value, expiry_of now seconds) else s q;
  del = λ now key s q. if text_eq key q then none else s q;
}

redis-IsRedis : IsRedis redis
redis-IsRedis = record {
  get_set = λ now later key q value seconds s h. elim (Bool-cases (text_eq key q)) [
    | inl same ↦ rw same refl
    | inr other ↦ rw other refl
  ];
  get_del = λ now later key q s h. elim (Bool-cases (text_eq key q)) [
    | inl same ↦ rw same refl
    | inr other ↦ rw other refl
  ];
}

abbrev parse_mark : Text → Option Text
parse_mark [] = none
parse_mark (c ∷ t) = some t

abbrev json : JsonText Text
json = record { print = λ t. some (b'j' ∷ t); parse = parse_mark; is_null = is_empty }

json-IsJson : IsJson json
json-IsJson = record {
  parse_print = λ j t h. ground (arith, h);
  print_filled = λ j t h. ground (arith, h);
}

abbrev call : ℕ → Fate → Op Text Text → Call Text Text
call now fate op = record {
  op = op;
  read_at = now;
  reading = through;
  written_at = now;
  writing = fate;
}

-- A value that is remembered for a second, is kept by a delete that is refused, and expires.
abbrev calls : List (Call Text Text)
calls =
    call 0 through (remember (codes "odds") 1 (ok (codes "1.9")))
    ∷ call 100 refused (delete (codes "odds"))
    ∷ call 200 through (get (codes "odds"))
    ∷ call 1000 through (get (codes "odds"))
    ∷ []

abbrev empty : Rows
empty key = none

run_refines_example : run json redis 300 calls empty ≡ spec_run json 300 calls (λ key. none)
run_refines_example =
    run_refines json redis redis-IsRedis json-IsJson 300 0 calls empty (omega arith)
      (λ later key. refl)
