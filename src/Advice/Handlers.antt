-- ===== src/Advice/Handlers.antt =====
-- The handlers of advice: src/advice/application/handlers, with the call of
-- src/matches/interfaces/module-api/matches-module.api.ts.
pub mod Laws
pub mod Owned
use bet_advise.Base.{
  ℕ, ◌-◌, Bool, true, false, Option, none, some, List, [], ◌∷◌, ◌++◌, if◌then◌else◌,
}
use bet_advise.Base.Exec.{Exec, ok, throw, ◌>>=◌}
use bet_advise.Base.Number.{Arithmetic}
use bet_advise.Base.Text.{Text, codes, is_empty}
use bet_advise.Tenancy.{Store, TenantError, get_tenant_id}
use bet_advise.Audit.{AuditLog, AuditError, Writing, log}
use bet_advise.Odds.{OddsQuote, QuoteError}
use bet_advise.Analysis.Prediction.{PredictionValue, PredictionError, new_prediction}
use bet_advise.Matches.{Match}
use bet_advise.Matches.Handlers.{get_match}
use bet_advise.Advice.{Advice, MatchRef}
use bet_advise.Advice.Evaluate.{evaluate}
use bet_advise.Advice.Repository.{
  AdviceEntity, AdviceData, Database, Transaction, RepositoryError, Services,
}
use bet_advise.Advice.Repository.Atomic.{create_with_outbox}
use bet_advise.Advice.Repository.Queries.{find_by_match_id, find_all, find_by_id}

-- What the handler reads and writes. The published events are pairs of an advice and a match.
pub record World (Num : Type 0) : Type 0 where
  pub matches : bet_advise.Matches.Handlers.World
  pub database : Database Num
  pub audit_logs : List (AuditLog Text)
  pub published : List (Text × Text)

-- What a call gets from outside: two ids, the readings of the clock, and what the transaction and
-- the audit log meet.
pub record Call : Type 0 where
  pub quote_id : Text
  pub advice_id : Text
  pub captured_now : ℕ
  pub received_now : ℕ
  pub created_at : ℕ
  pub updated_at : ℕ
  pub transaction : Transaction
  pub auditing : Writing

pub data HandlerError : Type 0 where
  no_tenant : TenantError → HandlerError
  -- `NotFoundDomainError`, with the kind and the id.
  not_found : Text → Text → HandlerError
  bad_prediction : PredictionError → HandlerError
  bad_quote : QuoteError → HandlerError
  storage : RepositoryError → HandlerError
  audit : AuditError → HandlerError

-- `MatchesModuleApi.findById`: any exception comes to `null`.
unfoldable pub find_match : Store → Text → bet_advise.Matches.Handlers.World → Option MatchRef
find_match store id matches = elim (get_match store id matches) [
  | throw e ↦ none
  | ok m ↦ some (record { id = m.id; status = m.status })
]

module _ (n : Arithmetic) where
  open n use {Num, decimal}

  -- The prediction that the handler simulates.
  fixed_prediction : Exec PredictionError (PredictionValue Num)
  fixed_prediction = new_prediction n (record {
    raw_model_probability = decimal 65 2;
    calibrated_probability = decimal 63 2;
    market_implied_probability = decimal 5 1;
    no_vig_market_probability = decimal 5 1;
    probability_lower_bound = decimal 6 1;
    probability_upper_bound = decimal 66 2;
    model_confidence = decimal 9 1;
    data_quality_score = decimal 1 0;
  })

  -- Its quote: the clock reads more than five seconds.
  fixed_quote : Call → Text → MatchRef → Exec QuoteError (OddsQuote Num)
  fixed_quote call tenant match =
      bet_advise.Odds.create n call.quote_id tenant (codes "provider-1") (codes "bookmaker-1")
        match.id (codes "match_winner") (codes "home") (decimal 19 1) (call.captured_now - 5000)
        (call.received_now - 1000) false false none

  map_error : {E A : Type 0} → (E → HandlerError) → Exec E A → Exec HandlerError A
  map_error f (ok a) = ok a
  map_error f (throw e) = throw (f e)

  -- The advice that is evaluated for a match.
  evaluated : Call → Text → MatchRef → Exec HandlerError (Advice Num)
  unfolding fixed_prediction fixed_quote map_error
  evaluated call tenant match = do
    prediction ← map_error bad_prediction fixed_prediction
    quote ← map_error bad_quote (fixed_quote call tenant match)
    ok (
        evaluate n (record {
          id = call.advice_id;
          tenant_id = tenant;
          match = some match;
          prediction = some prediction;
          quote = some quote;
          has_provider = true;
          has_model = true;
          market = codes "match_winner";
          selection = codes "home";
          created_at = call.created_at;
          updated_at = call.updated_at;
        }))

  abbrev pub data_of : Advice Num → AdviceData Num
  data_of a = record {
    id = a.id;
    match_id = a.match_id;
    market = a.market;
    selection = a.selection;
    decision = a.decision;
    rejection_reason = a.rejection_reason;
    expected_value = a.expected_value;
    edge = a.edge;
    calibrated_probability = a.calibrated_probability;
    model_version = a.model_version;
    odds_quote_id = a.odds_quote_id;
    rationale = a.rationale;
  }

  -- From the advice that was stored on: the audit log, then the event bus.
  publish : Call → Store → Advice Num → World Num → World Num × Exec HandlerError (Advice Num)
  publish call store advice world =
      elim (log call.auditing store (codes "ADVICE_GENERATED") (codes "Advice") advice.id
        (some (codes "system")) (some advice.match_id) world.audit_logs) [
          | throw e ↦ (world, throw (audit e))
          | ok rows ↦ (
            record world {
              audit_logs = rows;
              published = world.published ++ (advice.id, advice.match_id) ∷ [];
            },
            ok advice,
          )
        ]

  store_advice :
      Services Num
      → Call
      → Store
      → Advice Num
      → World Num
      → World Num × Exec HandlerError (Advice Num)
  unfolding publish
  store_advice services call store evaluated world =
      let (database, result) =
        create_with_outbox n services call.transaction store (data_of evaluated) world.database in
      elim result [
        | throw e ↦ (record world { database = database }, throw (storage e))
        | ok advice ↦ publish call store advice (record world { database = database })
      ]

  -- `GenerateAdviceHandler.execute`
  unfoldable pub generate_advice :
      Services Num → Call → Store → Text → World Num → World Num × Exec HandlerError (Advice Num)
  unfolding evaluated store_advice
  generate_advice services call store match_id world = elim (get_tenant_id store) [
    | throw e ↦ (world, throw (no_tenant e))
    | ok tenant ↦ elim (find_match store match_id world.matches) [
      | none ↦ (world, throw (not_found (codes "Match") match_id))
      | some match ↦ elim (evaluated call tenant match) [
        | throw e ↦ (world, throw e)
        | ok advice ↦ store_advice services call store advice world
      ]
    ]
  ]

  -- `GetAdviceHandler.execute`
  unfoldable pub get_advice :
      (Text → Num) → ℕ → Store → Text → World Num → Exec HandlerError (Advice Num)
  get_advice number_of now store id world =
      elim (find_by_id n number_of now store id world.database.advice) [
        | throw e ↦ throw (storage e)
        | ok none ↦ throw (not_found (codes "Advice") id)
        | ok (some advice) ↦ ok advice
      ]

  -- `ListAdviceHandler.execute`
  unfoldable pub list_advice :
      (Text → Num) → ℕ → Store → Option Text → World Num → Exec RepositoryError (List (Advice Num))
  list_advice number_of now store none world = find_all n number_of now store world.database.advice
  list_advice number_of now store (some match_id) world =
      if is_empty match_id
      then find_all n number_of now store world.database.advice
      else find_by_match_id n number_of now store match_id world.database.advice
