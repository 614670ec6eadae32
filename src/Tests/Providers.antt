-- ===== src/Tests/Providers.antt =====
-- A registry with a provider of matches and none of odds.
use bet_advise.Base.{ℕ, none, List, [], ◌∷◌}
use bet_advise.Base.Exec.{ok}
use bet_advise.Base.Text.{codes}
use bet_advise.Filter.{Request}
use bet_advise.Providers.{
  Registration, sports, new_registry, registered, last_odds, IsClosed, registered-IsClosed,
}

abbrev registrations : List (Registration ℕ ℕ)
registrations = sports (λ sport. ok (7 ∷ [])) ∷ []

abbrev request : Request
request = record { url = codes "/advice"; correlation_id = none }

registered-IsClosed_example :
    IsClosed
      (registered registrations new_registry)
      (last_odds registrations none)
      (codes "e1")
      request
registered-IsClosed_example = registered-IsClosed registrations (codes "e1") request
