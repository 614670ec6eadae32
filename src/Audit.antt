-- ===== src/Audit.antt =====
-- The audit log: src/audit/application/audit-log.service.ts and
-- src/audit/infrastructure/typeorm-audit-log.repository.ts.
use bet_advise.Base.{ℕ, Bool, Option, List, [], ◌∷◌, ◌++◌, if◌then◌else◌}
use bet_advise.Base.Exec.{Exec, ok, throw}
use bet_advise.Base.Text.{Text}
use bet_advise.Tenancy.{Store, TenantError, get_tenant_id}

-- A row of `audit_logs`; its payload is of any type.
pub record AuditLog (Payload : Type 0) : Type 0 where
  pub id : Text
  pub tenant_id : Text
  pub actor : Option Text
  pub action : Text
  pub entity_type : Text
  pub entity_id : Text
  pub payload : Option Payload
  pub created_at : ℕ

pub data AuditError : Type 0 where
  no_tenant : TenantError → AuditError
  database_refused : AuditError

-- What a call reads and gets from outside: the new id, the clock, and whether the insert fails.
pub record Writing : Type 0 where
  pub id : Text
  pub now : ℕ
  pub fails : Bool

module _ {Payload : Type 0} where
  -- `TypeOrmAuditLogRepository.create`, with the tenant store that is current.
  unfoldable pub create_log :
      Writing
      → Store
      → (actor : Option Text) (action entity_type entity_id : Text) → Option Payload
      → List (AuditLog Payload)
      → Exec AuditError (List (AuditLog Payload))
  create_log w store actor action entity_type entity_id payload rows = elim (get_tenant_id store) [
    | throw e ↦ throw (no_tenant e)
    | ok tenant ↦
        if w.fails
        then throw database_refused
        else ok (
            rows
            ++ record {
              id = w.id;
              tenant_id = tenant;
              actor = actor;
              action = action;
              entity_type = entity_type;
              entity_id = entity_id;
              payload = payload;
              created_at = w.now;
            }
              ∷ [])
  ]

  -- `AuditLogService.log`
  unfoldable pub log :
      Writing
      → Store
      → (action entity_type entity_id : Text) → (actor : Option Text) → Option Payload
      → List (AuditLog Payload)
      → Exec AuditError (List (AuditLog Payload))
  unfolding create_log
  log w store action entity_type entity_id actor payload rows =
      create_log w store actor action entity_type entity_id payload rows
