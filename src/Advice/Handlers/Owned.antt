-- ===== src/Advice/Handlers/Owned.antt =====
-- The handlers of src/advice/application/handlers return advice of the tenant in whose context they
-- run.
use bet_advise.Base.{
  ℕ, ◌≡◌, ap, ◌∙◌, sym, inl, inr, true, false, Option, none, some, List, Bool-cases, Option-cases,
  arith,
}
use bet_advise.Base.Exec.{Exec-cases, ok, throw}
use bet_advise.Base.Number.{Arithmetic}
use bet_advise.Base.Text.{Text, is_empty, text_eq}
use bet_advise.Tenancy.{Store, get_tenant_id}
use bet_advise.Advice.{Advice}
use bet_advise.Advice.Repository.{AdviceData, Database, Transaction, Services, to_domain, entity_of}
use bet_advise.Advice.Repository.Atomic.{create_with_outbox}
use bet_advise.Advice.Repository.Laws.{create_with_outbox-IsAtomic}
use bet_advise.Advice.Repository.Queries.{find_all, find_by_match_id, find_by_id}
use bet_advise.Advice.Repository.Queries.Owned.{IsOwned, find_where-IsOwned, find_by_id-own}
use bet_advise.Advice.Handlers.{
  World, Call, find_match, evaluated, data_of, publish, store_advice, generate_advice, get_advice,
  list_advice,
}

module _ (n : Arithmetic) where
  open n use {Num}

  create_with_outbox-own :
      (services : Services Num) (tx : Transaction) (tenant : Text) (details : AdviceData Num)
      (db : Database Num) (a : Advice Num)
      → is_empty tenant ≡ false
      → (create_with_outbox n services tx (some tenant) details db).1 ≡ ok a
      → a.tenant_id ≡ tenant
  unfolding to_domain entity_of
  create_with_outbox-own services tx tenant details db a filled h =
      elim (create_with_outbox-IsAtomic n services tx tenant details db filled).0 [
        | inl (same, e, thrown) ↦ ground (arith, thrown)
        | inr (saved, inr (fails, applied, e, thrown)) ↦ ground (arith, thrown)
        | inr (saved, inl done) ↦
            let same : to_domain n services.number_of tx.now (entity_of n tenant tx.now details)
                ≡ a =
              ground (arith, done) in
            ap (λ (x : Advice Num). x.tenant_id) (sym same)
      ]

  publish-same :
      (call : Call) (store : Store) (advice a : Advice Num) (world : World Num)
      → (publish n call store advice world).1 ≡ ok a
      → advice ≡ a
  unfolding publish
  publish-same call store advice a world h = ground arith

  store_advice-own :
      (services : Services Num) (call : Call) (tenant : Text) (advice a : Advice Num)
      (world : World Num)
      → is_empty tenant ≡ false
      → (store_advice n services call (some tenant) advice world).1 ≡ ok a
      → a.tenant_id ≡ tenant
  unfolding store_advice
  store_advice-own services call tenant advice a world filled h =
      elim (Exec-cases
        (create_with_outbox n services call.transaction (some tenant) (data_of n advice)
          world.database).1) [
            | inl (e, thrown) ↦ absurd (never (rw (store_advice, thrown) at h))
            | inr (stored, done) ↦
                let own =
                  create_with_outbox-own services call.transaction tenant (data_of n advice)
                    world.database stored filled done in
                let same =
                  publish-same call (some tenant) stored a _ (rw (store_advice, done) at h) in
                ap (λ (x : Advice Num). x.tenant_id) (sym same) ∙ own
          ]
    where
      never : {E A : Type 0} {e : E} {x : A} → throw e ≡ ok x → ⊥
      never h = ground arith

  pub generate_advice-own :
      (services : Services Num) (call : Call) (tenant match_id : Text) (world : World Num)
      (a : Advice Num)
      → is_empty tenant ≡ false
      → (generate_advice n services call (some tenant) match_id world).1 ≡ ok a
      → a.tenant_id ≡ tenant
  unfolding generate_advice get_tenant_id
  generate_advice-own services call tenant match_id world a filled h =
      elim (Option-cases (find_match (some tenant) match_id world.matches)) [
        | inl missing ↦ ground arith
        | inr (m, found) ↦ elim (Exec-cases (evaluated n call tenant m)) [
          | inl (e, thrown) ↦ ground arith
          | inr (advice, done) ↦
              store_advice-own services call tenant advice a world filled (ground arith)
        ]
      ]

  pub get_advice-own :
      (number_of : Text → Num) (now : ℕ) (tenant id : Text) (world : World Num) (a : Advice Num)
      → is_empty tenant ≡ false
      → get_advice n number_of now (some tenant) id world ≡ ok a
      → a.tenant_id ≡ tenant
  unfolding get_advice
  get_advice-own number_of now tenant id world a filled h =
      elim (Exec-cases (find_by_id n number_of now (some tenant) id world.database.advice)) [
        | inl (e, thrown) ↦ ground arith
        | inr (none, done) ↦ ground arith
        | inr (some b, done) ↦
            find_by_id-own n number_of now tenant id world.database.advice a filled (ground arith)
      ]

  pub list_advice-IsOwned :
      (number_of : Text → Num) (now : ℕ) (tenant : Text) (match_id : Option Text)
      (world : World Num) (found : List (Advice Num))
      → is_empty tenant ≡ false
      → list_advice n number_of now (some tenant) match_id world ≡ ok found
      → IsOwned n tenant found
  unfolding list_advice find_all find_by_match_id
  list_advice-IsOwned number_of now tenant none world found filled h =
      find_where-IsOwned n number_of now tenant (λ r. true) world.database.advice found filled h
  list_advice-IsOwned number_of now tenant (some match_id) world found filled h =
      elim (Bool-cases (is_empty match_id)) [
        | inl blank ↦
            find_where-IsOwned n number_of now tenant (λ r. true) world.database.advice found filled
              (rw blank at h)
        | inr asked ↦
            find_where-IsOwned n number_of now tenant (λ r. text_eq r.match_id match_id)
              world.database.advice found filled (rw asked at h)
      ]
