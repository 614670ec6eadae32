-- ===== src/Health.antt =====
-- The health checks: src/shared/infrastructure/health. What the services answer, and how Terminus
-- collects the results, are parameters.
pub mod Ready
use bet_advise.Base.{
  ◌≡◌, refl, ◌↔◌, ◌⊎◌, inl, inr, ℕ, Bool, true, false, not, ◌||◌, ◌++◌, Bool-cases, Option, none,
  some, List, [], ◌∷◌, All, if◌then◌else◌, arith,
}
use bet_advise.Base.Exec.{Exec, Exec-cases, ok, throw}
use bet_advise.Base.Text.{Text, codes, includes}
use bet_advise.Cache.{ping}

-- `HealthIndicatorResult`: the key is up, with a note if it was skipped.
pub record Status : Type 0 where
  pub key : Text
  pub skipped : Bool

-- `HealthCheckError`, with its message.
pub data HealthCheckError : Type 0 where
  check_failed : Text → HealthCheckError

up : Text → Status
up key = record { key = key; skipped = false }

-- A service that is asked: its answer is not read, and an exception is a failed check.
checked : {E A : Type 0} → Text → Text → Exec E A → Exec HealthCheckError Status
unfolding up
checked key message (ok answer) = ok (up key)
checked key message (throw e) = throw (check_failed message)

-- `RedisHealthIndicator.isHealthy`, over the answer to PING.
unfoldable pub redis_is_healthy : {E : Type 0} → Text → Exec E Text → Exec HealthCheckError Status
unfolding checked
redis_is_healthy key pong = checked key (codes "Redis check failed") (ping pong)

-- `S3HealthIndicator.isHealthy`, over the answer to HeadBucket.
unfoldable pub s3_is_healthy :
    {E A : Type 0} → Text → Text → Exec E A → Exec HealthCheckError Status
unfolding checked
s3_is_healthy key bucket answer =
    checked key (codes "S3 check failed for bucket: " ++ bucket) answer

-- `SqsHealthIndicator.isHealthy`, over the answer to GetQueueAttributes.
unfoldable pub sqs_is_healthy :
    {E A : Type 0} → Text → Text → Exec E A → Exec HealthCheckError Status
unfolding checked
sqs_is_healthy key queue_url answer =
    checked key (codes "SQS check failed for queueUrl: " ++ queue_url) answer

-- `MiniStackHealthIndicator.isHealthy`, over what `fetch` answers: `res.ok`, or an exception.
unfoldable pub is_local : Text → Bool
is_local url = includes url (codes "localhost:4566") || includes url (codes "127.0.0.1:4566")

fetched : {E : Type 0} → Text → Exec E Bool → Exec HealthCheckError Status
unfolding up
fetched key (ok true) = ok (up key)
fetched key (ok false) = throw (check_failed (codes "MiniStack local HTTP check failed"))
fetched key (throw e) = throw (check_failed (codes "MiniStack local HTTP check failed"))

unfoldable pub ministack_is_healthy :
    {E : Type 0} → Text → Text → Exec E Bool → Exec HealthCheckError Status
unfolding is_local fetched
ministack_is_healthy key endpoint_url answer =
    if not (is_local endpoint_url)
    then ok (record { key = key; skipped = true })
    else fetched key answer

-- What the services answer.
pub record Answers (E A : Type 0) : Type 0 where
  pub database : Exec HealthCheckError Status
  pub redis : Exec E Text
  pub bucket : Text
  pub s3 : Exec E A
  pub queue_url : Text
  pub sqs : Exec E A
  pub endpoint_url : Text
  pub ministack : Exec E Bool

-- `getReady`; `check` is the `HealthCheckService` on the results of its indicators.
unfoldable pub get_ready :
    {E A R : Type 0} → (List (Exec HealthCheckError Status) → R) → Answers E A → R
unfolding redis_is_healthy s3_is_healthy sqs_is_healthy ministack_is_healthy
get_ready check a = check (
    a.database
    ∷ redis_is_healthy (codes "redis") a.redis
    ∷ s3_is_healthy (codes "s3") a.bucket a.s3
    ∷ sqs_is_healthy (codes "sqs") a.queue_url a.sqs
    ∷ ministack_is_healthy (codes "ministack") a.endpoint_url a.ministack
    ∷ [])

abbrev pub IsUp : {E A : Type 0} → Exec E A → Type 0
IsUp {A = A} r = (a : A) × (r ≡ ok a)

-- Terminus reports that all is well exactly when each indicator returned.
abbrev pub IsCheck : (List (Exec HealthCheckError Status) → Bool) → Type 0
IsCheck check = (rs : List (Exec HealthCheckError Status)) → (check rs ≡ true) ↔ All IsUp rs
