-- ===== src/Providers.antt =====
-- The providers of matches and odds: src/providers/infrastructure/provider.registry.ts and its
-- adapters. A registered provider is a parameter. providers.module.ts reads the getters once, when
-- the module is built: what is registered later does not reach the tokens that it provides.
use bet_advise.Base.{◌≡◌, refl, ap, Option, none, some, List, [], ◌∷◌, ◌++◌}
use bet_advise.Base.Exec.{Exec, throw}
use bet_advise.Base.Text.{Text, codes}
use bet_advise.Filter.{
  Exception, domain, provider_not_configured, provider_not_configured_message, Request, respond,
}
use bet_advise.Filter.Table.{respond-domain}

-- `fetchMatches` or `fetchOdds`: for a sport or an event, the rows or an exception.
abbrev pub Provider : Type 0 → Type 0
Provider Row = Text → Exec Exception (List Row)

-- A `ProviderNotConfiguredError` for what the source names.
abbrev not_configured : Text → Exception
not_configured name = domain provider_not_configured (provider_not_configured_message name)

unfoldable pub unconfigured_sports_data : {Row : Type 0} → Provider Row
unconfigured_sports_data sport = throw (not_configured (codes "Sports data provider for " ++ sport))

unfoldable pub unconfigured_odds : {Row : Type 0} → Provider Row
unconfigured_odds event_id =
    throw (not_configured (codes "Odds data provider for event " ++ event_id))

pub record ProviderRegistry (Match Odds : Type 0) : Type 0 where
  pub sports_provider : Provider Match
  pub odds_provider : Provider Odds

-- What may be done to a registry from its construction on.
pub data Registration (Match Odds : Type 0) : Type 0 where
  sports : Provider Match → Registration Match Odds
  odds : Provider Odds → Registration Match Odds

module _ {Match Odds : Type 0} where
  unfoldable pub new_registry : ProviderRegistry Match Odds
  new_registry = record {
    sports_provider = unconfigured_sports_data;
    odds_provider = unconfigured_odds;
  }

  unfoldable pub register_sports_provider :
      Provider Match → ProviderRegistry Match Odds → ProviderRegistry Match Odds
  register_sports_provider p r = record r { sports_provider = p }

  unfoldable pub register_odds_provider :
      Provider Odds → ProviderRegistry Match Odds → ProviderRegistry Match Odds
  register_odds_provider p r = record r { odds_provider = p }

  -- The registry after some calls.
  unfoldable pub registered :
      List (Registration Match Odds) → ProviderRegistry Match Odds → ProviderRegistry Match Odds
  registered [] r = r
  registered (sports p ∷ rs) r = registered rs (register_sports_provider p r)
  registered (odds p ∷ rs) r = registered rs (register_odds_provider p r)

  -- The odds provider that was registered last.
  abbrev pub last_odds :
      List (Registration Match Odds) → Option (Provider Odds) → Option (Provider Odds)
  last_odds [] last = last
  last_odds (sports p ∷ rs) last = last_odds rs last
  last_odds (odds p ∷ rs) last = last_odds rs (some p)

  -- The registry gives the provider, or the one that is not configured.
  abbrev pub IsOdds : ProviderRegistry Match Odds → Option (Provider Odds) → Type 0
  IsOdds r none = r.odds_provider ≡ unconfigured_odds
  IsOdds r (some p) = r.odds_provider ≡ p

  registered-IsOdds :
      (rs : List (Registration Match Odds)) (r : ProviderRegistry Match Odds)
      (last : Option (Provider Odds))
      → IsOdds r last
      → IsOdds (registered rs r) (last_odds rs last)
  unfolding registered register_sports_provider register_odds_provider
  registered-IsOdds [] r last h = h
  registered-IsOdds (sports p ∷ rs) r none h =
      registered-IsOdds rs (register_sports_provider p r) none h
  registered-IsOdds (sports p ∷ rs) r (some q) h =
      registered-IsOdds rs (register_sports_provider p r) (some q) h
  registered-IsOdds (odds p ∷ rs) r last h =
      registered-IsOdds rs (register_odds_provider p r) (some p) refl

  -- A request for odds is handed to the provider, or it fails, and the filter answers with 503 and
  -- the code of a missing provider.
  abbrev pub IsClosed :
      ProviderRegistry Match Odds → Option (Provider Odds) → Text → Request → Type 0
  IsClosed r (some p) event_id request = r.odds_provider event_id ≡ p event_id
  IsClosed r none event_id request =
      (e : Exception) × (r.odds_provider event_id ≡ throw e)
      × ((respond e request).status ≡ 503)
      × ((respond e request).error_code ≡ codes "NO_PRODUCTION_DATA_PROVIDER")

  IsOdds-IsClosed :
      (r : ProviderRegistry Match Odds) (last : Option (Provider Odds)) (event_id : Text)
      (request : Request)
      → IsOdds r last
      → IsClosed r last event_id request
  unfolding unconfigured_odds
  IsOdds-IsClosed r (some p) event_id request h = ap (λ (q : Provider Odds). q event_id) h
  IsOdds-IsClosed r none event_id request h =
      let (status, code, detail) = respond-domain provider_not_configured _ request in
      (_, ap (λ (q : Provider Odds). q event_id) h, status, code)

  -- Whatever is registered in whatever order, odds come from the provider that was registered for
  -- odds last. As long as there is none, each request for odds fails, and the filter answers with
  -- 503 and the code of a missing provider.
  pub registered-IsClosed :
      (rs : List (Registration Match Odds)) (event_id : Text) (request : Request)
      → IsClosed (registered rs new_registry) (last_odds rs none) event_id request
  unfolding new_registry
  registered-IsClosed rs event_id request =
      IsOdds-IsClosed (registered rs new_registry) (last_odds rs none) event_id request
        (registered-IsOdds rs new_registry none refl)
