-- ===== src/Filter.antt =====
-- The exception filter: src/shared/interfaces/http/filters/global-exception.filter.ts, with the
-- errors of src/shared/domain/domain-error.ts.
pub mod Redact
pub mod Opaque
pub mod Log
pub mod Table
pub mod Correlation
use bet_advise.Base.{
  ℕ, Bool, true, false, ◌||◌, Option, none, some, List, [], ◌∷◌, ◌++◌, if◌then◌else◌,
}
use bet_advise.Base.Text.{Text, codes, is_empty, includes, text_or}
use bet_advise.Tenancy.{to_lower_case}

-- A message of a response: a text, or the array of the validation pipe.
pub data Message : Type 0 where
  text : Text → Message
  texts : List Text → Message

-- What `getResponse()` of an `HttpException` returns: a text, or an object with the values of
-- `message` and `error`.
pub data HttpBody : Type 0 where
  plain : Text → HttpBody
  object : Option Message → Option Text → HttpBody

-- The classes of domain-error.ts, and others below `DomainError`.
pub data DomainKind : Type 0 where
  not_found provider_not_configured invalid_operation invalid_state another : DomainKind

-- What else may be thrown: `null`, `undefined` and the like, or a value with the name of its
-- constructor and its message, which are empty when it has none.
pub data Thrown : Type 0 where
  falsy : Thrown
  value : Text → Text → Thrown

pub data Exception : Type 0 where
  http : ℕ → HttpBody → Text → Exception
  domain : DomainKind → Text → Exception
  thrown : Thrown → Exception

-- `request.url` and `request.correlationId`.
pub record Request : Type 0 where
  pub url : Text
  pub correlation_id : Option Text

-- The problem details that are sent.
pub record Response : Type 0 where
  pub type : Text
  pub title : Message
  pub status : ℕ
  pub detail : Message
  pub instance_url : Text
  pub error_code : Text
  pub correlation_id : Text
  pub invalid_params : Option Message

-- The variables that the branches of `catch` set.
pub record Verdict : Type 0 where
  pub status : ℕ
  pub message : Message
  pub error_code : Text
  pub details : Option Message

-- The messages of the errors.
unfoldable pub not_found_message : Text → Text → Text
not_found_message entity_type id = entity_type ++ codes " with ID " ++ id ++ codes " was not found."

unfoldable pub provider_not_configured_message : Text → Text
provider_not_configured_message name = codes "Provider " ++ name ++ codes " is not configured."

-- An array is truthy, also an empty one.
truthy_message : Option Message → Option Message
truthy_message none = none
truthy_message (some (text t)) = if is_empty t then none else some (text t)
truthy_message (some (texts ts)) = some (texts ts)

http_verdict : ℕ → HttpBody → Text → Verdict
unfolding truthy_message
http_verdict status (plain t) message = record {
  status = status;
  message = text t;
  error_code = codes "HTTP_EXCEPTION";
  details = none;
}
http_verdict status (object body_message error) message = record {
  status = status;
  message = elim (truthy_message body_message) [ none ↦ text message | some m ↦ m ];
  error_code = text_or error (codes "HTTP_EXCEPTION");
  details = truthy_message body_message;
}

domain_verdict : DomainKind → Message → Verdict
domain_verdict not_found message = record {
  status = 404;
  message = message;
  error_code = codes "NOT_FOUND";
  details = none;
}
domain_verdict provider_not_configured message = record {
  status = 503;
  message = message;
  error_code = codes "NO_PRODUCTION_DATA_PROVIDER";
  details = none;
}
domain_verdict another message = record {
  status = 400;
  message = message;
  error_code = codes "DOMAIN_ERROR";
  details = none;
}
domain_verdict _ message = record {
  status = 422;
  message = message;
  error_code = codes "UNPROCESSABLE_ENTITY";
  details = none;
}

unfoldable pub is_database_error : Thrown → Bool
is_database_error falsy = false
is_database_error (value name msg) =
    includes name (codes "QueryFailedError")
    || includes name (codes "TypeORMError")
    || includes msg (codes "database")
    || includes msg (codes "connection")
    || includes msg (codes "Postgres")
    || includes msg (codes "protocol")

unfoldable pub is_redis_error : Thrown → Bool
is_redis_error falsy = false
is_redis_error (value name msg) =
    includes name (codes "Redis") || includes msg (codes "Redis") || includes msg (codes "ioredis")

unfoldable pub is_aws_error : Thrown → Bool
is_aws_error falsy = false
is_aws_error (value name msg) =
    includes name (codes "S3ServiceException")
    || includes name (codes "SQSServiceException")
    || includes msg (codes "S3")
    || includes msg (codes "SQS")
    || includes msg (codes "AWS")

-- A dependency that is down.
unavailable : Text → Text → Verdict
unavailable message code = record {
  status = 503;
  message = text message;
  error_code = code;
  details = none;
}

unexpected : Verdict
unexpected = record {
  status = 500;
  message = text (codes "An unexpected error occurred.");
  error_code = codes "INTERNAL_SERVER_ERROR";
  details = none;
}

thrown_verdict : Thrown → Verdict
unfolding unavailable unexpected is_database_error is_redis_error is_aws_error
thrown_verdict t =
    if is_database_error t
    then unavailable (codes "Database service is temporarily unavailable.")
        (codes "DATABASE_UNAVAILABLE")
    else if is_redis_error t
    then unavailable (codes "Cache service is temporarily unavailable.") (codes "CACHE_UNAVAILABLE")
    else if is_aws_error t
    then unavailable (codes "Cloud dependencies are temporarily unavailable.")
        (codes "CLOUD_DEPENDENCY_UNAVAILABLE")
    else unexpected

verdict_of : Exception → Verdict
unfolding http_verdict domain_verdict thrown_verdict
verdict_of (http status body message) = http_verdict status body message
verdict_of (domain kind message) = domain_verdict kind (text message)
verdict_of (thrown t) = thrown_verdict t

-- `catch`: the response.
unfoldable pub respond : Exception → Request → Response
unfolding verdict_of
respond exception request =
    let v = verdict_of exception in
    record {
      type = codes "https://api.bet-advise.com/errors/" ++ to_lower_case v.error_code;
      title = v.message;
      status = v.status;
      detail = v.message;
      instance_url = request.url;
      error_code = v.error_code;
      correlation_id = text_or request.correlation_id (codes "unknown");
      invalid_params = v.details;
    }
