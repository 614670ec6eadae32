-- ===== src/Tests/Generation.antt =====
-- Advice for a stored match, with a database that works and one that fails at the commit.
use bet_advise.Base.{◌≡◌, refl, true, false, none, some, [], ◌∷◌, ◌++◌, arith}
use bet_advise.Base.Text.{codes}
use bet_advise.Advice.{recommended, no_provider}
use bet_advise.Advice.Repository.{AdviceData, Database, Transaction, Services}
use bet_advise.Advice.Repository.Atomic.{in_session, create_with_outbox}
use bet_advise.Advice.Repository.Laws.{IsStoring, IsPaired, IsAtomic, create_with_outbox-IsAtomic}
use bet_advise.Advice.Handlers.{World, Call, generate_advice}
use bet_advise.Advice.Handlers.Laws.{generate_advice-IsPaired}
use bet_advise.Tests.Fixed.{Fixed, nan, pos, fixed}
use bet_advise.Tests.Storage.{row}

abbrev pub services : Services Fixed
services = record {
  number_of = λ t. nan;
  checksum = λ p. codes "sum";
  save_advice = λ r rows. some (r ∷ rows);
  save_event = λ e t. some (t ++ e ∷ []);
}

services-IsStoring : IsStoring fixed services
services-IsStoring = record {
  advice_kept = λ r x rows rows' h there. ground arith;
  event_added = λ e t t' new h. ground arith;
}

abbrev pub works : Transaction
works = record {
  event_id = codes "e1";
  correlation_id = codes "c1";
  now = 9000;
  connect_fails = false;
  start_fails = false;
  commit_fails = false;
  commit_applied = false;
  rollback_fails = false;
}

abbrev lost : Transaction
lost = record works { commit_fails = true; commit_applied = true }

abbrev empty : Database Fixed
empty = record { advice = []; outbox = [] }

abbrev pub details : AdviceData Fixed
details = record {
  id = codes "a1";
  match_id = codes "m1";
  market = codes "match_winner";
  selection = codes "home";
  decision = recommended;
  rejection_reason = none;
  expected_value = some (pos 1970);
  edge = some (pos 1037);
  calibrated_probability = some (pos 6300);
  model_version = some (codes "model_v1");
  odds_quote_id = some (codes "q1");
  rationale = no_provider;
}

create_with_outbox-IsAtomic_example :
    let (db', result) = create_with_outbox fixed services lost (some (codes "t1")) details empty in
    IsAtomic fixed services lost (codes "t1") details empty db' result
    × ((in_session fixed services lost (codes "t1") details empty).0.is_transaction_active ≡ true
        → false ≡ true)
create_with_outbox-IsAtomic_example =
    create_with_outbox-IsAtomic fixed services lost (codes "t1") details empty refl

abbrev pub call : Call
call = record {
  quote_id = codes "q1";
  advice_id = codes "a1";
  captured_now = 8000;
  received_now = 8000;
  created_at = 8500;
  updated_at = 8500;
  transaction = works;
  auditing = record { id = codes "l1"; now = 9100; fails = true };
}

abbrev pub world : World Fixed
world = record {
  matches = record { matches = row ∷ []; audit_logs = [] };
  database = empty;
  audit_logs = [];
  published = [];
}

generate_advice-IsPaired_example :
    IsPaired fixed
      (generate_advice fixed services call (some (codes "t1")) (codes "m1") world).0.database
generate_advice-IsPaired_example =
    generate_advice-IsPaired fixed services call (codes "t1") (codes "m1") world services-IsStoring
      refl refl (λ r h. absurd h)
