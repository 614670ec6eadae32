-- ===== src/Tenancy/Subscriber.antt =====
-- The row-level-security subscriber: src/shared/infrastructure/tenant/tenant-rls.subscriber.ts.
-- `ctx` is the tenant context that was injected, if any, with its current store. (A subscriber that
-- TypeORM constructs itself, as in shared/infrastructure/database/database.module.ts, has none.)
pub mod Laws
use bet_advise.Base.{Bool, true, false, not, ◌&&◌, Option, none, some, filter, if◌then◌else◌}
use bet_advise.Base.Exec.{Exec, ok, throw}
use bet_advise.Base.Text.{Text, codes, is_empty, text_eq}
use bet_advise.Tenancy.{is_allowed, Store, TenantError, get_tenant_id}

-- The tenant properties of an entity, `tenantId` (tenant_id_camel) and `tenant_id`: `none` where it
-- has no such property.
pub record Entity : Type 0 where
  pub tenant_id_camel : Option Text
  pub tenant_id : Option Text

pub data SubscriberError : Type 0 where
  tenant_mismatch : SubscriberError

-- What the `try` blocks come to: the tenant that is in force, if the context gives one that is
-- neither empty nor `public`; an exception of the context is swallowed.
unfoldable pub in_force : Exec TenantError Text → Option Text
in_force (throw e) = none
in_force (ok t) = if not (is_empty t) && not (text_eq t (codes "public")) then some t else none

unfoldable pub active_tenant : Option Store → Option Text
unfolding in_force
active_tenant none = none
active_tenant (some store) = in_force (get_tenant_id store)

-- `afterTransactionStart`: the tenant that is set for the transaction, if any.
unfoldable pub after_transaction_start : Option Store → Option Text
after_transaction_start ctx = elim (active_tenant ctx) [
  | none ↦ none
  | some t ↦ some (filter is_allowed t)
]

stamp : Text → Entity → Option Text → Option Text → Entity
stamp t e (some _) _ = record e { tenant_id_camel = some t }
stamp t e none (some _) = record e { tenant_id = some t }
stamp t e none none = e

-- `beforeInsert`: the entity as it is written.
unfoldable pub before_insert : Option Store → Entity → Entity
unfolding stamp
before_insert ctx e = elim (active_tenant ctx) [
  | none ↦ e
  | some t ↦ stamp t e e.tenant_id_camel e.tenant_id
]

abbrev truthy : Option Text → Option Text → Option Text
truthy none d = d
truthy (some t) d = if is_empty t then d else some t

-- `event.entity?.tenantId || event.databaseEntity?.tenantId`
abbrev entity_tenant : Option Entity → Option Entity → Option Text
entity_tenant none none = none
entity_tenant none (some d) = d.tenant_id_camel
entity_tenant (some e) none = truthy e.tenant_id_camel none
entity_tenant (some e) (some d) = truthy e.tenant_id_camel d.tenant_id_camel

-- The check that `beforeUpdate` and `beforeRemove` share.
check : Option Text → Option Text → Exec SubscriberError (Unit {0})
check (some t) (some owner) =
    if not (is_empty owner) && not (text_eq owner t) then throw tenant_mismatch else ok tt
check _ _ = ok tt

-- `beforeUpdate`, with the entity of the event and the one that was loaded.
unfoldable pub before_update :
    Option Store → Option Entity → Option Entity → Exec SubscriberError (Unit {0})
unfolding check
before_update ctx entity database_entity =
    check (active_tenant ctx) (entity_tenant entity database_entity)

-- `beforeRemove`
unfoldable pub before_remove :
    Option Store → Option Entity → Option Entity → Exec SubscriberError (Unit {0})
unfolding check
before_remove ctx entity database_entity =
    check (active_tenant ctx) (entity_tenant entity database_entity)
