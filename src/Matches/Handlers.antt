-- ===== src/Matches/Handlers.antt =====
-- The handlers of matches: src/matches/application/handlers.
pub mod Laws
use bet_advise.Base.{ℕ, Option, none, some, List}
use bet_advise.Base.Exec.{Exec, ok, throw}
use bet_advise.Base.Text.{Text, codes}
use bet_advise.Tenancy.{Store}
use bet_advise.Audit.{AuditLog, AuditError, Writing, log}
use bet_advise.Matches.{Match}
use bet_advise.Matches.Storage.{MatchEntity, Save, StorageError, find_by_id, find_all, create}

pub record CreateMatchCommand : Type 0 where
  pub home_team : Text
  pub away_team : Text
  pub kickoff_at : ℕ
  pub external_id : Option Text

-- The teams that the audit log gets.
pub record Teams : Type 0 where
  pub home_team : Text
  pub away_team : Text

pub record World : Type 0 where
  pub matches : List MatchEntity
  pub audit_logs : List (AuditLog Teams)

pub data HandlerError : Type 0 where
  storage : StorageError → HandlerError
  audit : AuditError → HandlerError
  -- `NotFoundDomainError('Match', id)`
  not_found : Text → HandlerError

audit_created : Writing → Store → Match → World → World × Exec HandlerError Match
audit_created w store match world =
    elim (log w store (codes "MATCH_CREATED") (codes "Match") match.id (some (codes "system"))
      (some (record { home_team = match.home_team; away_team = match.away_team }))
      world.audit_logs) [
        | throw e ↦ (world, throw (audit e))
        | ok rows ↦ (record world { audit_logs = rows }, ok match)
      ]

-- `CreateMatchHandler.execute`: the world after it, and what it returns or throws. The two writes
-- are no transaction.
unfoldable pub create_match :
    Save
    → (writing auditing : Writing) → Store
    → CreateMatchCommand
    → World
    → World × Exec HandlerError Match
unfolding audit_created
create_match save writing auditing store command world =
    elim (create save writing store
      (record {
        home_team = command.home_team;
        away_team = command.away_team;
        kickoff_at = command.kickoff_at;
        external_id = command.external_id;
        sport = none;
        competition = none;
        participants = none;
      })
      world.matches) [
        | throw e ↦ (world, throw (storage e))
        | ok (match, table) ↦ audit_created auditing store match (record world { matches = table })
      ]

-- `GetMatchHandler.execute`
unfoldable pub get_match : Store → Text → World → Exec HandlerError Match
get_match store id world = elim (find_by_id store id world.matches) [
  | throw e ↦ throw (storage e)
  | ok none ↦ throw (not_found id)
  | ok (some match) ↦ ok match
]

-- `ListMatchesHandler.execute`
unfoldable pub list_matches : Store → World → Exec HandlerError (List Match)
list_matches store world = elim (find_all store world.matches) [
  | throw e ↦ throw (storage e)
  | ok matches ↦ ok matches
]
