-- ===== src/Tests/Filter.antt =====
-- A message with a password and a token, and what is left of it.
use bet_advise.Base.{◌≡◌, refl, ◌↔◌, ◌||◌, none, some, false}
use bet_advise.Base.Text.{Text, codes}
use bet_advise.Filter.Redact.{
  after, span, password_match, bearer_match, postgres_match, replace_from, redact_secrets,
}
use bet_advise.Filter.Log.{IsRedacted, IsRedactedStack, log_entry, log_entry-IsRedacted}
use bet_advise.Filter.{
  Thrown, value, thrown, Request, is_database_error, is_redis_error, is_aws_error, respond,
}
use bet_advise.Filter.Opaque.{IsFixed, respond-thrown}

redacted :
    redact_secrets (codes "Password=a1b2; bearer  abc.de== postgres://me:pw@db")
    ≡ codes "password=[REDACTED]; Bearer [REDACTED] postgres://[REDACTED]@db"
unfolding redact_secrets replace_from postgres_match bearer_match password_match after span
redacted = refl

abbrev lost : Thrown
lost = value (codes "Error") (codes "Redis is lost")

abbrev refused : Thrown
refused = value (codes "Error") (codes "ioredis: refused")

abbrev request : Request
request = record { url = codes "/matches"; correlation_id = none }

respond-thrown_example :
    IsFixed (respond (thrown lost) request) request
    × (((respond (thrown lost) request).status ≡ 500)
        ↔ ((is_database_error lost || is_redis_error lost || is_aws_error lost) ≡ false))
    × ((respond (thrown lost) request).error_code ≡ (respond (thrown refused) request).error_code
        → respond (thrown lost) request ≡ respond (thrown refused) request)
respond-thrown_example = respond-thrown lost refused request

abbrev secret : Text
secret = codes "Password=a1b2; bearer  abc.de=="

log_entry-IsRedacted_example :
    IsRedacted (log_entry (thrown lost) secret (some secret) request).message
    × IsRedactedStack (log_entry (thrown lost) secret (some secret) request).stack
log_entry-IsRedacted_example = log_entry-IsRedacted (thrown lost) secret (some secret) request
