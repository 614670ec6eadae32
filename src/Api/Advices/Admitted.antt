-- ===== src/Api/Advices/Admitted.antt =====
-- What the controller of advice answers, and to whom.
use bet_advise.Base.{◌≡◌, refl, inl, inr, List, [], arith}
use bet_advise.Base.Exec.{Exec-cases, ok}
use bet_advise.Base.Number.{Arithmetic}
use bet_advise.Base.Text.{Text}
use bet_advise.Auth.{Claims}
use bet_advise.Tenancy.Middleware.{HttpRequest, Passed}
use bet_advise.Advice.{Advice}
use bet_advise.Advice.Repository.{Services}
use bet_advise.Advice.Handlers.{World, Call}
use bet_advise.Api.{Verifiers, admit}
use bet_advise.Api.Isolation.{IsAdmitted, admit-IsAdmitted}
use bet_advise.Api.Advices.{
  AdviceCall, generate, get_all, get_one, permissions_of, route_of, handle, serve_advice,
}

module _ (n : Arithmetic) where
  open n use {Num}

  -- A request that is answered with advice has a token that the token service verified, whose
  -- scopes hold the permission of the route, and the answer is that of the call's body.
  pub serve_advice-IsAdmitted :
      (v : Verifiers) (services : Services Num) (call : Call) (req : HttpRequest)
      (advice_call : AdviceCall) (world world' : World Num) (found : List (Advice Num))
      → serve_advice n v services call req advice_call world ≡ (world', ok found)
      → (passed : Passed) × (header : Text) × (payload : Claims) × IsAdmitted v req passed
          (permissions_of advice_call)
          header
          payload
        × (handle n services call passed.store world advice_call ≡ (world', ok found))
  unfolding serve_advice route_of
  serve_advice-IsAdmitted v services call req advice_call world world' found h =
      elim (Exec-cases (admit v (route_of advice_call) req)) [
        | inl (e, thrown) ↦ ground arith
        | inr ((passed, request), admitted) ↦
            let (header, payload, a) =
              admit-IsAdmitted v (route_of advice_call) req passed request
                (permissions_of advice_call) refl refl (nonempty advice_call) admitted in
            (passed, header, payload, a, ground arith)
      ]
    where
      nonempty : (c : AdviceCall) → ¬ (permissions_of c ≡ [])
      nonempty (generate match_id strange) = ground arith
      nonempty (get_all match_id) = ground arith
      nonempty (get_one id) = ground arith
