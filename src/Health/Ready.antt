-- ===== src/Health/Ready.antt =====
-- When the program reports that it is ready.
use bet_advise.Base.{◌≡◌, refl, ◌↔◌, ◌⊎◌, inl, inr, Bool, true, false, Bool-cases, List, arith}
use bet_advise.Base.Exec.{Exec, ok, throw}
use bet_advise.Base.Text.{Text}
use bet_advise.Cache.{ping}
use bet_advise.Health.{
  Status, HealthCheckError, checked, redis_is_healthy, s3_is_healthy, sqs_is_healthy, is_local,
  fetched, ministack_is_healthy, Answers, get_ready, IsUp, IsCheck,
}

checked-IsUp :
    {E A : Type 0} (key message : Text) (r : Exec E A) → IsUp (checked key message r) ↔ IsUp r
unfolding checked
checked-IsUp key message (ok a) = (λ h. (a, refl), λ h. (_, refl))
checked-IsUp key message (throw e) = (λ h. ground (arith, h.1), λ h. ground (arith, h.1))

ping-IsUp : {E : Type 0} (r : Exec E Text) → IsUp (ping r) ↔ IsUp r
unfolding ping
ping-IsUp (ok pong) = (λ h. (pong, refl), λ h. (pong, refl))
ping-IsUp (throw e) = (λ h. ground (arith, h.1), λ h. ground (arith, h.1))

fetched-IsUp : {E : Type 0} (key : Text) (r : Exec E Bool) → IsUp (fetched key r) ↔ (r ≡ ok true)
unfolding fetched
fetched-IsUp key (ok true) = (λ h. refl, λ h. (_, refl))
fetched-IsUp key (ok false) = (λ h. ground (arith, h.1), λ h. ground (arith, h))
fetched-IsUp key (throw e) = (λ h. ground (arith, h.1), λ h. ground (arith, h))

-- The local stack is of no account elsewhere.
ministack-IsUp :
    {E : Type 0} (key url : Text) (r : Exec E Bool)
    → IsUp (ministack_is_healthy key url r) ↔ ((is_local url ≡ false) ⊎ (r ≡ ok true))
unfolding ministack_is_healthy
ministack-IsUp key url r = elim (Bool-cases (is_local url)) [
  | inr elsewhere ↦ rw elsewhere (λ h. inl refl, λ h. (_, refl))
  | inl local ↦ rw local (
    λ h. inr ((fetched-IsUp key r).0 h),
    λ h. elim h [ inl remote ↦ ground (arith, remote) | inr fine ↦ (fetched-IsUp key r).1 fine ],
  )
]

-- Where Terminus reports that all is well exactly when each indicator returned: the program is
-- ready exactly when the database check returned, Redis, S3 and SQS answered, and the local stack
-- is not used or its health address answered with success.
pub get_ready_iff :
    {E A : Type 0} (check : List (Exec HealthCheckError Status) → Bool) (a : Answers E A)
    → IsCheck check
    → (get_ready check a ≡ true) ↔ (
        IsUp a.database
        × IsUp a.redis
        × IsUp a.s3
        × IsUp a.sqs
        × ((is_local a.endpoint_url ≡ false) ⊎ (a.ministack ≡ ok true)))
unfolding get_ready redis_is_healthy s3_is_healthy sqs_is_healthy
get_ready_iff check a all_up = (
  λ h.
      let (database, (redis, (s3, (sqs, (ministack, none_left))))) = (all_up _).0 h in
      (
        database,
        (ping-IsUp a.redis).0 ((checked-IsUp _ _ (ping a.redis)).0 redis),
        (checked-IsUp _ _ a.s3).0 s3,
        (checked-IsUp _ _ a.sqs).0 sqs,
        (ministack-IsUp _ a.endpoint_url a.ministack).0 ministack,
      ),
  λ h.
      let (database, redis, s3, sqs, ministack) = h in
      (all_up _).1 (
        database,
        (
          (checked-IsUp _ _ (ping a.redis)).1 ((ping-IsUp a.redis).1 redis),
          (
            (checked-IsUp _ _ a.s3).1 s3,
            (
              (checked-IsUp _ _ a.sqs).1 sqs,
              ((ministack-IsUp _ a.endpoint_url a.ministack).1 ministack, tt),
            ),
          ),
        ),
      ),
)
