-- ===== src/Api/Advices/Owned.antt =====
-- The controller of advice answers with advice of the tenant of the token alone.
use bet_advise.Base.{◌≡◌, refl, ap, false, some, List, [], ◌∷◌, All, Occurs, arith}
use bet_advise.Base.Exec.{Exec, ok, throw}
use bet_advise.Base.Number.{Arithmetic}
use bet_advise.Base.Text.{Text, is_empty}
use bet_advise.Auth.{Claims, token_of}
use bet_advise.Auth.Guards.{guard_scopes}
use bet_advise.Tenancy.Middleware.{HttpRequest, is_health}
use bet_advise.Advice.{Advice}
use bet_advise.Advice.Repository.{RepositoryError, Services}
use bet_advise.Advice.Repository.Queries.Owned.{IsOwned}
use bet_advise.Advice.Handlers.{HandlerError, World, Call, generate_advice}
use bet_advise.Advice.Handlers.Owned.{generate_advice-own, get_advice-own, list_advice-IsOwned}
use bet_advise.Api.{Verifiers, Refusal}
use bet_advise.Api.Isolation.{IsConsistent, tenant_of, admitted-store}
use bet_advise.Api.Advices.{
  AdviceCall, generate, get_all, get_one, permissions_of, one, many, generate_for, match_id_of,
  handle, serve_advice,
}
use bet_advise.Api.Advices.Admitted.{serve_advice-IsAdmitted}

module _ (n : Arithmetic) where
  open n use {Num}

  one-IsOwned :
      (tenant : Text) (result : Exec HandlerError (Advice Num)) (found : List (Advice Num))
      → ((a : Advice Num) → result ≡ ok a → a.tenant_id ≡ tenant)
      → one n result ≡ ok found
      → IsOwned n tenant found
  unfolding one
  one-IsOwned tenant (throw e) found own h = ground arith
  one-IsOwned tenant (ok a) found own h =
      let same : a ∷ [] ≡ found = ground arith in rw (← same) (own a refl, tt)

  many-same :
      (result : Exec RepositoryError (List (Advice Num))) (found : List (Advice Num))
      → many n result ≡ ok found
      → result ≡ ok found
  unfolding many
  many-same (throw e) found h = ground arith
  many-same (ok advices) found h = ground arith

  generate_for-IsOwned :
      (services : Services Num) (call : Call) (tenant : Text) (world : World Num)
      (id : Exec Refusal Text) (found : List (Advice Num))
      → is_empty tenant ≡ false
      → (generate_for n services call (some tenant) world id).1 ≡ ok found
      → IsOwned n tenant found
  unfolding generate_for
  generate_for-IsOwned services call tenant world (throw e) found filled h = ground arith
  generate_for-IsOwned services call tenant world (ok id) found filled h =
      one-IsOwned tenant (generate_advice n services call (some tenant) id world).1 found
        (λ a done. generate_advice-own n services call tenant id world a filled done) h

  handle-IsOwned :
      (services : Services Num) (call : Call) (tenant : Text) (world : World Num)
      (advice_call : AdviceCall) (found : List (Advice Num))
      → is_empty tenant ≡ false
      → (handle n services call (some tenant) world advice_call).1 ≡ ok found
      → IsOwned n tenant found
  unfolding handle
  handle-IsOwned services call tenant world (generate match_id strange) found filled h =
      generate_for-IsOwned services call tenant world (match_id_of match_id strange) found filled h
  handle-IsOwned services call tenant world (get_all match_id) found filled h =
      list_advice-IsOwned n services.number_of call.created_at tenant match_id world found filled
        (many-same _ found h)
  handle-IsOwned services call tenant world (get_one id) found filled h =
      one-IsOwned tenant _ found
        (λ a done.
          get_advice-own n services.number_of call.created_at tenant id world a filled done)
        h

  -- Off the health URLs, where the middleware and the token service read the same payload out of a
  -- token that both accept: whatever the controller of advice returns, the request has a token that
  -- the token service verified, its scopes hold the permission of the route, and each advice that
  -- is returned, a generated one included, is owned by the cleaned tenant of that token.
  pub serve_advice-IsOwned :
      (v : Verifiers) (services : Services Num) (call : Call) (req : HttpRequest)
      (advice_call : AdviceCall) (world world' : World Num) (found : List (Advice Num))
      → is_health req ≡ false
      → IsConsistent v
      → serve_advice n v services call req advice_call world ≡ (world', ok found)
      → (header : Text) × (payload : Claims) × (req.authorization ≡ some header)
        × (v.check (token_of header) ≡ ok payload)
        × All
            (λ perm. Occurs perm (guard_scopes payload.scope payload.scopes))
            (permissions_of advice_call)
        × IsOwned n (tenant_of payload) found
  serve_advice-IsOwned v services call req advice_call world world' found off same h =
      let (passed, header, payload, a, handled) =
        serve_advice-IsAdmitted n v services call req advice_call world world' found h in
      let (store, filled) =
        admitted-store v req passed (permissions_of advice_call) header payload off same a in
      (
        header,
        payload,
        a.given,
        a.verified,
        a.allowed,
        handle-IsOwned services call (tenant_of payload) world advice_call found filled
            (ap (λ p. p.1) (rw store at handled)),
      )
