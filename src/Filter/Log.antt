-- ===== src/Filter/Log.antt =====
-- The line that the filter logs.
use bet_advise.Base.{◌≡◌, inl, inr, false, Bool-cases, Option, none, some, if◌then◌else◌}
use bet_advise.Base.Text.{Text, codes, is_empty, text_or}
use bet_advise.Filter.{Exception, Request, respond}
use bet_advise.Filter.Redact.{password_match, bearer_match, redact_secrets, has_match}
use bet_advise.Filter.Redact.Clean.{redact_secrets-IsClean}

-- The values of the line, but for the time, the severity and the name of the service.
pub record LogEntry : Type 0 where
  pub correlation_id : Text
  pub error_code : Text
  pub message : Text
  pub stack : Option Text

-- `stack ? this.redactSecrets(stack) : undefined`
unfoldable pub redacted_stack : Option Text → Option Text
redacted_stack none = none
redacted_stack (some stack) = if is_empty stack then none else some (redact_secrets stack)

-- The line of an exception, from what `error.message` or `String(exception)` is, and its stack.
unfoldable pub log_entry : Exception → Text → Option Text → Request → LogEntry
unfolding redacted_stack respond
log_entry exception error_msg stack request = record {
  correlation_id = text_or request.correlation_id (codes "unknown");
  error_code = (respond exception request).error_code;
  message = redact_secrets error_msg;
  stack = redacted_stack stack;
}

-- No match of the patterns of a password and of a bearer token.
abbrev pub IsRedacted : Text → Type 0
IsRedacted s = (has_match password_match s ≡ false) × (has_match bearer_match s ≡ false)

abbrev pub IsRedactedStack : Option Text → Type 0
IsRedactedStack none = Unit
IsRedactedStack (some s) = IsRedacted s

redacted_stack-IsRedacted : (stack : Option Text) → IsRedactedStack (redacted_stack stack)
unfolding redacted_stack
redacted_stack-IsRedacted none = tt
redacted_stack-IsRedacted (some stack) = elim (Bool-cases (is_empty stack)) [
  | inl empty ↦ rw empty tt
  | inr filled ↦ rw filled (redact_secrets-IsClean stack)
]

-- Whatever an exception says, neither the pattern of a password nor that of a bearer token matches
-- anywhere in the message or in the stack that is logged.
pub log_entry-IsRedacted :
    (exception : Exception) (error_msg : Text) (stack : Option Text) (request : Request)
    → IsRedacted (log_entry exception error_msg stack request).message
      × IsRedactedStack (log_entry exception error_msg stack request).stack
unfolding log_entry
log_entry-IsRedacted exception error_msg stack request =
    (redact_secrets-IsClean error_msg, redacted_stack-IsRedacted stack)
