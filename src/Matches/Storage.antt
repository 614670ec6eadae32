-- ===== src/Matches/Storage.antt =====
-- The storage of matches: match.mapper.ts, typeorm-match.repository.ts and entities/match.entity.ts
-- of src/matches/infrastructure, and the handlers of src/matches/application/handlers.
pub mod Laws
use bet_advise.Base.{
  ℕ, Bool, true, false, not, ◌&&◌, ◌||◌, Option, none, some, List, [], ◌∷◌, ◌++◌, map, filter, any,
  find, leb, if◌then◌else◌,
}
use bet_advise.Base.Exec.{Exec, ok, throw}
use bet_advise.Base.Text.{Text, codes, is_empty, text_eq, text_or}
use bet_advise.Tenancy.{Store, TenantError, get_tenant_id}
use bet_advise.Audit.{AuditLog, AuditError, Writing, log}
use bet_advise.Matches.{MatchStatus, scheduled, Match}

-- A row of `matches`. The `status` column holds texts of the enum.
pub record MatchEntity : Type 0 where
  pub id : Text
  pub tenant_id : Text
  pub external_id : Option Text
  pub home_team : Text
  pub away_team : Text
  pub sport : Text
  pub competition : Text
  pub participants : Option (List Text)
  pub scheduled_start : ℕ
  pub status : MatchStatus
  pub created_at : ℕ
  pub updated_at : ℕ
  pub version : ℕ

abbrev participants_or_empty : Option (List Text) → List Text
participants_or_empty none = []
participants_or_empty (some ps) = ps

-- `MatchMapper.toDomain`, with `Match.create`.
unfoldable pub to_domain : MatchEntity → Match
to_domain entity = record {
  id = entity.id;
  tenant_id = entity.tenant_id;
  home_team = entity.home_team;
  away_team = entity.away_team;
  kickoff_at = entity.scheduled_start;
  status = entity.status;
  created_at = entity.created_at;
  updated_at = entity.updated_at;
  external_id = entity.external_id;
  sport = entity.sport;
  competition = entity.competition;
  participants = participants_or_empty entity.participants;
  version = entity.version;
}

-- `MatchMapper.toEntity`
unfoldable pub to_entity : Match → MatchEntity
to_entity domain = record {
  id = domain.id;
  tenant_id = domain.tenant_id;
  external_id = domain.external_id;
  home_team = domain.home_team;
  away_team = domain.away_team;
  sport = domain.sport;
  competition = domain.competition;
  participants = some domain.participants;
  scheduled_start = domain.kickoff_at;
  status = domain.status;
  created_at = domain.created_at;
  updated_at = domain.updated_at;
  version = domain.version;
}

pub data StorageError : Type 0 where
  no_tenant : TenantError → StorageError
  insert_refused : StorageError

-- `findById`
unfoldable pub find_by_id : Store → Text → List MatchEntity → Exec StorageError (Option Match)
unfolding to_domain
find_by_id store id table = elim (get_tenant_id store) [
  | throw e ↦ throw (no_tenant e)
  | ok tenant ↦ elim (find (λ r. text_eq r.id id && text_eq r.tenant_id tenant) table) [
    | none ↦ ok none
    | some entity ↦ ok (some (to_domain entity))
  ]
]

-- `order: { scheduledStart: 'ASC' }`
insert_by_start : MatchEntity → List MatchEntity → List MatchEntity
insert_by_start r [] = r ∷ []
insert_by_start r (s ∷ rows) =
    if leb r.scheduled_start s.scheduled_start then r ∷ s ∷ rows else s ∷ insert_by_start r rows

by_start : List MatchEntity → List MatchEntity
unfolding insert_by_start
by_start [] = []
by_start (r ∷ rows) = insert_by_start r (by_start rows)

-- `findAll`
unfoldable pub find_all : Store → List MatchEntity → Exec StorageError (List Match)
unfolding by_start to_domain
find_all store table = elim (get_tenant_id store) [
  | throw e ↦ throw (no_tenant e)
  | ok tenant ↦ ok (map to_domain (by_start (filter (λ r. text_eq r.tenant_id tenant) table)))
]

-- The data of `create`.
pub record MatchData : Type 0 where
  pub home_team : Text
  pub away_team : Text
  pub kickoff_at : ℕ
  pub external_id : Option Text
  pub sport : Option Text
  pub competition : Option Text
  pub participants : Option (List Text)

-- `data.externalId || null`
abbrev filled_or_null : Option Text → Option Text
filled_or_null none = none
filled_or_null (some t) = if is_empty t then none else some t

-- `Repository.save`: the table after it, or an exception.
abbrev pub Save : Type 0
Save = MatchEntity → List MatchEntity → Option (List MatchEntity)

-- The row that `create` saves, with the columns that the database fills in.
unfoldable pub new_row : Text → ℕ → Text → MatchData → MatchEntity
new_row id now tenant details = record {
  id = id;
  tenant_id = tenant;
  external_id = filled_or_null details.external_id;
  home_team = details.home_team;
  away_team = details.away_team;
  sport = text_or details.sport (codes "soccer");
  competition = text_or details.competition (codes "default-league");
  participants = some (participants_or_empty details.participants);
  scheduled_start = details.kickoff_at;
  status = scheduled;
  created_at = now;
  updated_at = now;
  version = 1;
}

-- `create`: the match and the table after it; `w` holds the new id and the clock,
-- and whether the connection fails.
unfoldable pub create :
    Save
    → Writing
    → Store
    → MatchData
    → List MatchEntity
    → Exec StorageError (Match × List MatchEntity)
unfolding new_row to_domain
create save w store details table = elim (get_tenant_id store) [
  | throw e ↦ throw (no_tenant e)
  | ok tenant ↦
      if w.fails
      then throw insert_refused
      else elim (save (new_row w.id w.now tenant details) table) [
        | none ↦ throw insert_refused
        | some table' ↦ ok (to_domain (new_row w.id w.now tenant details), table')
      ]
]
