-- ===== src/Tests/Health.antt =====
-- Health checks of a program that does not run locally.
use bet_advise.Base.{◌≡◌, refl, ◌↔◌, ◌⊎◌, Bool, true, false, List, [], ◌∷◌, arith}
use bet_advise.Base.Exec.{Exec, ok, throw}
use bet_advise.Base.Text.{Text, codes}
use bet_advise.Health.{Status, HealthCheckError, Answers, get_ready, is_local, IsUp, IsCheck}
use bet_advise.Health.Ready.{get_ready_iff}

abbrev all_ok : List (Exec HealthCheckError Status) → Bool
all_ok [] = true
all_ok (ok s ∷ rs) = all_ok rs
all_ok (throw e ∷ rs) = false

all_ok-IsCheck : IsCheck all_ok
all_ok-IsCheck [] = (λ h. tt, λ h. refl)
all_ok-IsCheck (ok s ∷ rs) =
    (λ h. ((s, refl), (all_ok-IsCheck rs).0 h), λ h. (all_ok-IsCheck rs).1 h.1)
all_ok-IsCheck (throw e ∷ rs) = (λ h. ground arith, λ h. ground (arith, h.0.1))

abbrev answers : Answers Text Bool
answers = record {
  database = ok (record { key = codes "database"; skipped = false });
  redis = ok (codes "PONG");
  bucket = codes "b";
  s3 = ok true;
  queue_url = codes "q";
  sqs = throw (codes "no queue");
  endpoint_url = codes "https://aws";
  ministack = throw (codes "not asked");
}

get_ready_iff_example : (get_ready all_ok answers ≡ true) ↔ (
    IsUp answers.database
    × IsUp answers.redis
    × IsUp answers.s3
    × IsUp answers.sqs
    × ((is_local answers.endpoint_url ≡ false) ⊎ (answers.ministack ≡ ok true)))
get_ready_iff_example = get_ready_iff all_ok answers all_ok-IsCheck
