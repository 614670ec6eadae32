-- ===== src/Matches.antt =====
-- The match entity: src/matches/domain/match.entity.ts and match-status.enum.ts.
pub mod Lifecycle
pub mod Storage
pub mod Handlers
use bet_advise.Base.{ℕ, ◌+◌, Bool, true, false, Option, none, List, [], ◌∷◌, any, if◌then◌else◌}
use bet_advise.Base.Exec.{Exec, ok, throw}
use bet_advise.Base.Text.{Text}

pub data MatchStatus : Type 0 where
  scheduled postponed cancelled live finished abandoned : MatchStatus

-- Dates are milliseconds since the epoch.
pub record Match : Type 0 where
  pub id : Text
  pub tenant_id : Text
  pub home_team : Text
  pub away_team : Text
  pub kickoff_at : ℕ
  pub status : MatchStatus
  pub created_at : ℕ
  pub updated_at : ℕ
  pub external_id : Option Text
  pub sport : Text
  pub competition : Text
  pub participants : List Text
  pub version : ℕ

-- `===` on the enum.
abbrev pub status_eq : MatchStatus → MatchStatus → Bool
status_eq scheduled scheduled = true
status_eq postponed postponed = true
status_eq cancelled cancelled = true
status_eq live live = true
status_eq finished finished = true
status_eq abandoned abandoned = true
status_eq _ _ = false

-- The table `allowed` of `transitionTo`.
allowed : MatchStatus → List MatchStatus
allowed scheduled = live ∷ postponed ∷ cancelled ∷ []
allowed postponed = scheduled ∷ cancelled ∷ []
allowed live = finished ∷ abandoned ∷ []
allowed finished = []
allowed cancelled = []
allowed abandoned = []

pub data MatchError : Type 0 where
  invalid_transition : MatchStatus → MatchStatus → MatchError

-- `now` is what `new Date()` reads.
unfoldable pub transition_to : Match → MatchStatus → ℕ → Exec MatchError Match
unfolding allowed
transition_to m new_status now =
    if any (status_eq new_status) (allowed m.status)
    then ok (record m { status = new_status; updated_at = now; version = m.version + 1 })
    else throw (invalid_transition m.status new_status)
