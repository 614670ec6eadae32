-- ===== src/Matches/Handlers/Laws.antt =====
-- What a handler creates, another one finds.
use bet_advise.Base.{
  ◌≡◌, refl, ◌∙◌, ◌⊎◌, inl, inr, false, none, some, List, [], ◌∷◌, ◌++◌, Bool-cases, All, arith,
  if◌then◌else◌,
}
use bet_advise.Base.Exec.{Exec-cases, ok, throw}
use bet_advise.Base.Text.{Text, codes, is_empty, text_eq_refl}
use bet_advise.Tenancy.{get_tenant_id}
use bet_advise.Audit.{AuditLog, AuditError, Writing, log, create_log}
use bet_advise.Matches.{Match}
use bet_advise.Matches.Storage.{
  MatchEntity, MatchData, Save, StorageError, find_by_id, find_all, new_row, to_domain, create,
}
use bet_advise.Matches.Storage.Laws.{
  has_id, IsInserting, create-ok, find_by_id-new, create-owned, find_by_id-owned, find_all-owned,
}
use bet_advise.Matches.Handlers.{
  CreateMatchCommand, Teams, World, storage, audit, audit_created, create_match, get_match,
  list_matches,
}

find_by_id-created :
    (save : Save) (w : Writing) (tenant : Text) (details : MatchData)
    (table table' : List MatchEntity) (m : Match)
    → IsInserting save
    → has_id w.id table ≡ false
    → is_empty tenant ≡ false
    → create save w (some tenant) details table ≡ ok (m, table')
    → find_by_id (some tenant) m.id table' ≡ ok (some m)
unfolding new_row to_domain
find_by_id-created save w tenant details table table' m inserting new filled h =
    let row = new_row w.id w.now tenant details in
    let (stored, same) = create-ok save w tenant details table table' m h in
    let grown = inserting.inserts row table table' new stored in
    rw same (rw grown (find_by_id-new row tenant table filled new ∙ rw (text_eq_refl tenant) refl))

abbrev teams_of : Match → Teams
teams_of m = record { home_team = m.home_team; away_team = m.away_team }

-- The audit row of a match that was created.
abbrev pub log_of : Writing → Text → Match → AuditLog Teams
log_of w tenant m = record {
  id = w.id;
  tenant_id = tenant;
  actor = some (codes "system");
  action = codes "MATCH_CREATED";
  entity_type = codes "Match";
  entity_id = m.id;
  payload = some (teams_of m);
  created_at = w.now;
}

audit_created-cases :
    (w : Writing) (tenant : Text) (m : Match) (world : World)
    → is_empty tenant ≡ false
    → audit_created w (some tenant) m world ≡ (
        if w.fails
        then (world, throw (audit AuditError.database_refused))
        else (record world { audit_logs = world.audit_logs ++ log_of w tenant m ∷ [] }, ok m))
unfolding audit_created log create_log get_tenant_id
audit_created-cases w tenant m world filled = elim (Bool-cases w.fails) [
  | inl fails ↦ rw (audit_created, filled) (rw fails refl)
  | inr works ↦ rw (audit_created, filled) (rw works refl)
]

abbrev details_of : CreateMatchCommand → MatchData
details_of command = record {
  home_team = command.home_team;
  away_team = command.away_team;
  kickoff_at = command.kickoff_at;
  external_id = command.external_id;
  sport = none;
  competition = none;
  participants = none;
}

-- With ids that are new, the command handler either leaves the world alone and throws the error of the storage, or stores
-- a match that the query handler of the tenant then returns. It audits and returns that match, or
-- throws when the audit log fails, and then the match stays stored.
pub create_match-cases :
    (save : Save) (writing auditing : Writing) (tenant : Text) (command : CreateMatchCommand)
    (world : World)
    → IsInserting save
    → has_id writing.id world.matches ≡ false
    → is_empty tenant ≡ false
    → ((e : StorageError) × (create_match save writing auditing (some tenant) command world
          ≡ (world, throw (storage e))))
      ⊎ ((m : Match) × (table : List MatchEntity) × (create_match save writing auditing
              (some tenant)
              command
              world
            ≡ (if auditing.fails
                then (record world { matches = table }, throw (audit AuditError.database_refused))
                else (
                  record {
                    matches = table;
                    audit_logs = world.audit_logs ++ log_of auditing tenant m ∷ [];
                  },
                  ok m,
                )))
          × (get_match (some tenant) m.id (record world { matches = table }) ≡ ok m))
unfolding create_match get_match
create_match-cases save writing auditing tenant command world inserting new filled =
    elim (Exec-cases (create save writing (some tenant) (details_of command) world.matches)) [
      | inl (e, thrown) ↦ inl (e, rw (create_match, thrown) refl)
      | inr ((m, table), made) ↦ inr (
        m,
        table,
        rw (create_match, made)
            (audit_created-cases auditing tenant m (record world { matches = table }) filled),
        rw
            (
              get_match,
              find_by_id-created save writing tenant (details_of command) world.matches table m
                  inserting new filled made,
            )
            refl,
      )
    ]

-- What the handlers return in the context of a tenant is that tenant's.
pub create_match-owned :
    (save : Save) (writing auditing : Writing) (tenant : Text) (command : CreateMatchCommand)
    (world world' : World) (m : Match)
    → is_empty tenant ≡ false
    → create_match save writing auditing (some tenant) command world ≡ (world', ok m)
    → m.tenant_id ≡ tenant
unfolding create_match
create_match-owned save writing auditing tenant command world world' m filled h =
    elim (Exec-cases (create save writing (some tenant) (details_of command) world.matches)) [
      | inl (e, thrown) ↦ ground arith
      | inr ((n, table), made) ↦
          let stored : World = record world { matches = table } in
          let audited = audit_created-cases auditing tenant n stored filled in
          let owned =
            create-owned save writing tenant (details_of command) world.matches table n made in
          ground arith
    ]

pub get_match-owned :
    (tenant id : Text) (world : World) (m : Match)
    → is_empty tenant ≡ false
    → get_match (some tenant) id world ≡ ok m
    → m.tenant_id ≡ tenant
unfolding get_match
get_match-owned tenant id world m filled h =
    elim (Exec-cases (find_by_id (some tenant) id world.matches)) [
      | inl (e, thrown) ↦ ground arith
      | inr (none, found) ↦ ground arith
      | inr (some x, found) ↦
          let owned = find_by_id-owned tenant id world.matches x filled found in ground arith
    ]

pub list_matches-owned :
    (tenant : Text) (world : World) (ms : List Match)
    → is_empty tenant ≡ false
    → list_matches (some tenant) world ≡ ok ms
    → All (λ (m : Match). m.tenant_id ≡ tenant) ms
unfolding list_matches
list_matches-owned tenant world ms filled h =
    elim (Exec-cases (find_all (some tenant) world.matches)) [
      | inl (e, thrown) ↦ ground arith
      | inr (x, found) ↦ find_all-owned tenant world.matches ms filled (ground arith)
    ]
