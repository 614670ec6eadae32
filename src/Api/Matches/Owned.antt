-- ===== src/Api/Matches/Owned.antt =====
-- What the controller of matches returns is the caller's.
use bet_advise.Base.{◌≡◌, refl, ap, inl, inr, false, some, List, [], ◌∷◌, All, Occurs, arith}
use bet_advise.Base.Exec.{Exec, Exec-cases, ok, throw}
use bet_advise.Base.Text.{Text, is_empty}
use bet_advise.Auth.{Claims, token_of}
use bet_advise.Auth.Guards.{guard_scopes}
use bet_advise.Tenancy.Middleware.{HttpRequest, is_health}
use bet_advise.Matches.{Match}
use bet_advise.Matches.Handlers.{CreateMatchCommand, World, HandlerError, create_match, get_match}
use bet_advise.Matches.Handlers.Laws.{create_match-owned, get_match-owned, list_matches-owned}
use bet_advise.Api.{Verifiers, Refusal, admit}
use bet_advise.Api.Isolation.{admit-IsAdmitted, IsConsistent, tenant_of, admitted-store}
use bet_advise.Api.Matches.{
  MatchesCall, post, get_all, get_one, Outside, validate, permissions_of, route_of, one, many,
  post_match, handle, serve_matches,
}

abbrev IsOwned : Text → List Match → Type 0
IsOwned tenant ms = All (λ (m : Match). m.tenant_id ≡ tenant) ms

one-IsOwned :
    (tenant : Text) (r : Exec HandlerError Match) (ms : List Match)
    → ((m : Match) → r ≡ ok m → m.tenant_id ≡ tenant)
    → one r ≡ ok ms
    → IsOwned tenant ms
unfolding one
one-IsOwned tenant (throw e) ms owned h = ground arith
one-IsOwned tenant (ok m) ms owned h =
    let same : m ∷ [] ≡ ms = ground arith in rw (← same) (owned m refl, tt)

post_match-IsOwned :
    (o : Outside) (tenant : Text) (world world' : World) (r : Exec Refusal CreateMatchCommand)
    (ms : List Match)
    → is_empty tenant ≡ false
    → post_match o (some tenant) world r ≡ (world', ok ms)
    → IsOwned tenant ms
unfolding post_match
post_match-IsOwned o tenant world world' (throw e) ms filled h = ground arith
post_match-IsOwned o tenant world world' (ok command) ms filled h =
    one-IsOwned tenant (create_match o.save o.writing o.auditing (some tenant) command world).1 ms
      (λ m made. create_match-owned o.save o.writing o.auditing tenant command world _ m filled (
        ap (λ x. ((create_match o.save o.writing o.auditing (some tenant) command world).0, x))
          made))
      (ap (λ p. p.1) h)

handle-IsOwned :
    (o : Outside) (tenant : Text) (call : MatchesCall) (world world' : World) (ms : List Match)
    → is_empty tenant ≡ false
    → handle o (some tenant) world call ≡ (world', ok ms)
    → IsOwned tenant ms
unfolding handle many
handle-IsOwned o tenant (post body) world world' ms filled h =
    post_match-IsOwned o tenant world world' (validate o body) ms filled h
handle-IsOwned o tenant get_all world world' ms filled h =
    list_matches-owned tenant world ms filled (ground arith)
handle-IsOwned o tenant (get_one id) world world' ms filled h =
    one-IsOwned tenant (get_match (some tenant) id world) ms
      (λ m found. get_match-owned tenant id world m filled found) (ap (λ p. p.1) h)

-- Off the health URLs, where the middleware and the token service read the same payload out of a
-- token that both accept: whatever the controller of matches returns, the request has a token that
-- the token service verified, its scopes hold the permission of the route, and each match that is
-- returned, created ones included, is owned by the cleaned tenant of that token.
pub serve_matches-owned :
    (v : Verifiers) (o : Outside) (req : HttpRequest) (call : MatchesCall) (world world' : World)
    (ms : List Match)
    → is_health req ≡ false
    → IsConsistent v
    → serve_matches v o req call world ≡ (world', ok ms)
    → (header : Text) × (payload : Claims) × (req.authorization ≡ some header)
      × (v.check (token_of header) ≡ ok payload)
      × All (λ perm. Occurs perm (guard_scopes payload.scope payload.scopes)) (permissions_of call)
      × All (λ (m : Match). m.tenant_id ≡ tenant_of payload) ms
unfolding serve_matches route_of
serve_matches-owned v o req call world world' ms off same h =
    elim (Exec-cases (admit v (route_of call) req)) [
      | inl (e, thrown) ↦ ground arith
      | inr ((passed, request), admitted) ↦
          let (header, payload, a) =
            admit-IsAdmitted v (route_of call) req passed request (permissions_of call) refl refl
              (nonempty call) admitted in
          let (store, filled) =
            admitted-store v req passed (permissions_of call) header payload off same a in
          let handled : handle o passed.store world call ≡ (world', ok ms) = ground arith in
          (
            header,
            payload,
            a.given,
            a.verified,
            a.allowed,
            handle-IsOwned o (tenant_of payload) call world world' ms filled (rw store at handled),
          )
    ]
  where
    nonempty : (c : MatchesCall) → ¬ (permissions_of c ≡ [])
    nonempty (post body) = ground arith
    nonempty get_all = ground arith
    nonempty (get_one id) = ground arith
