-- ===== src/Tests/Matches.antt =====
-- A match that is postponed, rescheduled, played and finished.
use bet_advise.Base.{◌≡◌, refl, ◌↔◌, none, [], ◌∷◌, arith}
use bet_advise.Base.Exec.{ok}
use bet_advise.Base.Text.{codes}
use bet_advise.Matches.{scheduled, postponed, live, finished, Match, transition_to}
use bet_advise.Matches.Lifecycle.{◌⟶◌, moved, transition_to_iff, Lifecycle, HasStarted}

abbrev arsenal : Match
arsenal = record {
  id = codes "match-1";
  tenant_id = codes "t1";
  home_team = codes "Arsenal";
  away_team = codes "Chelsea";
  kickoff_at = 900;
  status = scheduled;
  created_at = 100;
  updated_at = 100;
  external_id = none;
  sport = codes "soccer";
  competition = codes "default-league";
  participants = [];
  version = 1;
}

transition_to_iff_example :
    (transition_to arsenal live 900 ≡ ok (moved arsenal live 900))
    ↔ ((scheduled ⟶ live) × (moved arsenal live 900 ≡ moved arsenal live 900))
transition_to_iff_example = transition_to_iff arsenal live 900 (moved arsenal live 900)

abbrev delayed : Match
delayed = moved (moved arsenal postponed 800) scheduled 850

abbrev played : Match
played = moved (moved delayed live 1900) finished 2000

life : Lifecycle arsenal (finished ∷ live ∷ scheduled ∷ postponed ∷ []) played
unfolding transition_to
life =
    Lifecycle.step 2000
      (Lifecycle.step 1900 (Lifecycle.step 850 (Lifecycle.step 800 Lifecycle.start refl) refl) refl)
      refl

not_started : ¬ HasStarted scheduled
not_started h = ground arith
