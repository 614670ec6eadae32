-- ===== src/Filter/Table.antt =====
-- The answers to the errors of the domain.
use bet_advise.Base.{◌≡◌, refl, ℕ}
use bet_advise.Base.Text.{Text, codes}
use bet_advise.Filter.{
  text, domain, DomainKind, not_found, provider_not_configured, invalid_operation, invalid_state,
  another, Request, domain_verdict, verdict_of, respond,
}

abbrev pub status_of : DomainKind → ℕ
status_of not_found = 404
status_of provider_not_configured = 503
status_of invalid_operation = 422
status_of invalid_state = 422
status_of another = 400

abbrev pub code_of : DomainKind → Text
code_of not_found = codes "NOT_FOUND"
code_of provider_not_configured = codes "NO_PRODUCTION_DATA_PROVIDER"
code_of invalid_operation = codes "UNPROCESSABLE_ENTITY"
code_of invalid_state = codes "UNPROCESSABLE_ENTITY"
code_of another = codes "DOMAIN_ERROR"

-- An error of the domain is answered with the status and the code of its class, and its message.
pub respond-domain :
    (kind : DomainKind) (message : Text) (request : Request)
    → ((respond (domain kind message) request).status ≡ status_of kind)
      × ((respond (domain kind message) request).error_code ≡ code_of kind)
      × ((respond (domain kind message) request).detail ≡ text message)
unfolding respond verdict_of domain_verdict
respond-domain not_found message request = (refl, refl, refl)
respond-domain provider_not_configured message request = (refl, refl, refl)
respond-domain invalid_operation message request = (refl, refl, refl)
respond-domain invalid_state message request = (refl, refl, refl)
respond-domain another message request = (refl, refl, refl)
