-- ===== src/Tenancy/Subscriber/Laws.antt =====
-- What the subscriber enforces, and what it lets pass.
use bet_advise.Base.{◌≡◌, ◌≢◌, ◌↔◌, false, Option, none, some, [], arith}
use bet_advise.Base.Exec.{ok, throw}
use bet_advise.Base.Text.{Text, is_empty, text_eq_iff}
use bet_advise.Tenancy.{Store, get_tenant_id}
use bet_advise.Tenancy.Subscriber.{
  Entity, tenant_mismatch, active_tenant, before_insert, before_update, before_remove,
}

-- While a tenant is in force, an update or a removal is refused exactly where the entity that the
-- event brings names another tenant.
pub before_update_iff :
    (ctx : Option Store) (e d : Entity) (t owner : Text)
    → active_tenant ctx ≡ some t
    → e.tenant_id_camel ≡ some owner
    → owner ≢ []
    → ((before_update ctx (some e) (some d) ≡ throw tenant_mismatch) ↔ (owner ≢ t))
      × ((before_remove ctx (some e) (some d) ≡ throw tenant_mismatch) ↔ (owner ≢ t))
unfolding before_update before_remove
before_update_iff ctx e d t owner a h filled = ground (arith, text_eq_iff owner t)

active_tenant-filled :
    (ctx : Option Store) (t : Text) → active_tenant ctx ≡ some t → is_empty t ≡ false
unfolding active_tenant get_tenant_id
active_tenant-filled none t h = cc
active_tenant-filled (some none) t h = cc
active_tenant-filled (some (some s)) t h = ground arith

-- What was loaded from the database is not looked at where the event's entity names a tenant: an
-- update that writes the tenant in force over a row of any other tenant passes the check.
pub before_update-ignores_owner :
    (ctx : Option Store) (e d : Entity) (t : Text)
    → active_tenant ctx ≡ some t
    → e.tenant_id_camel ≡ some t
    → before_update ctx (some e) (some d) ≡ ok tt
unfolding before_update
before_update-ignores_owner ctx e d t a h =
    ground (arith, text_eq_iff t t, active_tenant-filled ctx t a)

-- An entity with a tenant column that is inserted while a tenant is in force belongs to that
-- tenant, whatever it held before. Under any tenant in force later, an update or a removal is
-- refused exactly where the two tenants differ, if the event brings the inserted entity itself, or
-- brings none and the inserted one is what was loaded. But if the event brings an entity that names
-- the later tenant, both pass over the inserted one, whosever it is.
pub before_insert-guards :
    (ctx ctx' : Option Store) (e e' : Entity) (loaded : Option Entity) (old t t' : Text)
    → active_tenant ctx ≡ some t
    → active_tenant ctx' ≡ some t'
    → e.tenant_id_camel ≡ some old
    → e'.tenant_id_camel ≡ some t'
    → ((before_insert ctx e).tenant_id_camel ≡ some t)
      × ((before_update ctx' (some (before_insert ctx e)) loaded ≡ throw tenant_mismatch)
          ↔ (t ≢ t'))
      × ((before_remove ctx' (some (before_insert ctx e)) loaded ≡ throw tenant_mismatch)
          ↔ (t ≢ t'))
      × ((before_update ctx' none (some (before_insert ctx e)) ≡ throw tenant_mismatch) ↔ (t ≢ t'))
      × ((before_remove ctx' none (some (before_insert ctx e)) ≡ throw tenant_mismatch) ↔ (t ≢ t'))
      × (before_update ctx' (some e') (some (before_insert ctx e)) ≡ ok tt)
      × (before_remove ctx' (some e') (some (before_insert ctx e)) ≡ ok tt)
unfolding before_insert before_update before_remove
before_insert-guards ctx ctx' e e' loaded old t t' a a' h h' = (
  ground arith,
  ground (arith, text_eq_iff t t', active_tenant-filled ctx t a),
  ground (arith, text_eq_iff t t', active_tenant-filled ctx t a),
  ground (arith, text_eq_iff t t', active_tenant-filled ctx t a),
  ground (arith, text_eq_iff t t', active_tenant-filled ctx t a),
  ground (arith, text_eq_iff t' t', active_tenant-filled ctx' t' a'),
  ground (arith, text_eq_iff t' t', active_tenant-filled ctx' t' a'),
)
