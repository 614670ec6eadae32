-- ===== src/Advice/Handlers/Laws.antt =====
-- The handler that generates advice never stores advice without its outbox event.
use bet_advise.Base.{◌≡◌, refl, inl, inr, false, some, any, Option-cases, arith}
use bet_advise.Base.Exec.{Exec-cases}
use bet_advise.Base.Number.{Arithmetic}
use bet_advise.Base.Text.{Text, is_empty, text_eq}
use bet_advise.Tenancy.{Store, get_tenant_id}
use bet_advise.Advice.{Advice}
use bet_advise.Advice.Repository.{Services}
use bet_advise.Advice.Repository.Atomic.{create_with_outbox}
use bet_advise.Advice.Repository.Laws.{IsStoring, IsPaired, create_with_outbox-IsPaired}
use bet_advise.Advice.Handlers.{
  World, Call, find_match, evaluated, data_of, publish, store_advice, generate_advice,
}

module _ (n : Arithmetic) where
  open n use {Num}

  -- Publishing leaves the tables alone.
  publish-database :
      (call : Call) (store : Store) (advice : Advice Num) (world : World Num)
      → (publish n call store advice world).0.database ≡ world.database
  unfolding publish
  publish-database call store advice world = ground arith

  store_advice-database :
      (services : Services Num) (call : Call) (store : Store) (advice : Advice Num)
      (world : World Num)
      → (store_advice n services call store advice world).0.database
        ≡ (create_with_outbox n services call.transaction store (data_of n advice) world.database).0
  unfolding store_advice
  store_advice-database services call store advice world =
      elim (Exec-cases
        (create_with_outbox n services call.transaction store (data_of n advice)
          world.database).1) [
            | inl (e, thrown) ↦ rw (store_advice, thrown) refl
            | inr (stored, done) ↦ rw (store_advice, done) (publish-database call store stored _)
          ]

  -- If the id of the event is new, then whatever the handler meets (no match, a database or an
  -- audit log that fails), afterwards each stored advice still has the outbox event that announces
  -- it.
  pub generate_advice-IsPaired :
      (services : Services Num) (call : Call) (tenant match_id : Text) (world : World Num)
      → IsStoring n services
      → any (λ r. text_eq r.id call.transaction.event_id) world.database.outbox ≡ false
      → is_empty tenant ≡ false
      → IsPaired n world.database
      → IsPaired n (generate_advice n services call (some tenant) match_id world).0.database
  unfolding generate_advice get_tenant_id
  generate_advice-IsPaired services call tenant match_id world storing new filled h =
      elim (Option-cases (find_match (some tenant) match_id world.matches)) [
        | inl missing ↦ rw (generate_advice, filled) (rw missing h)
        | inr (m, found) ↦ elim (Exec-cases (evaluated n call tenant m)) [
          | inl (e, thrown) ↦ rw (generate_advice, filled) (rw found (rw thrown h))
          | inr (advice, done) ↦
              rw (generate_advice, filled)
                (rw found (
                  rw done (
                    rw (store_advice-database services call (some tenant) advice world) (
                      create_with_outbox-IsPaired n services call.transaction tenant
                        (data_of n advice) world.database storing new filled h))))
        ]
      ]
