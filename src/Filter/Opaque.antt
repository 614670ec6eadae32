-- ===== src/Filter/Opaque.antt =====
-- What a response tells of an exception that is neither an `HttpException` nor a `DomainError`.
use bet_advise.Base.{
  ◌≡◌, refl, ap, ◌↔◌, ◌⊎◌, inl, inr, ℕ, true, false, ◌||◌, Bool-cases, none, List, [], ◌∷◌, Occurs,
  if◌then◌else◌, arith, sym, ◌∙◌,
}
use bet_advise.Base.Text.{Text, codes, text_eq}
use bet_advise.Filter.{
  text, thrown, Thrown, Request, Response, Verdict, is_database_error, is_redis_error, is_aws_error,
  unavailable, unexpected, thrown_verdict, verdict_of, respond,
}

-- The answers that there are.
abbrev pub fixed_answers : List (ℕ × Text × Text)
fixed_answers =
    (503, codes "DATABASE_UNAVAILABLE", codes "Database service is temporarily unavailable.")
    ∷ (503, codes "CACHE_UNAVAILABLE", codes "Cache service is temporarily unavailable.")
    ∷ (
      503,
      codes "CLOUD_DEPENDENCY_UNAVAILABLE",
      codes "Cloud dependencies are temporarily unavailable.",
    )
    ∷ (500, codes "INTERNAL_SERVER_ERROR", codes "An unexpected error occurred.")
    ∷ []

-- The response is one of these answers, and nothing but the request adds to it.
abbrev pub IsFixed : Response → Request → Type 0
IsFixed response request =
    (message : Text) × Occurs (response.status, response.error_code, message) fixed_answers
    × (response.title ≡ text message)
    × (response.detail ≡ text message)
    × (response.invalid_params ≡ none)

abbrev database_down : Verdict
database_down =
    unavailable (codes "Database service is temporarily unavailable.")
      (codes "DATABASE_UNAVAILABLE")

abbrev cache_down : Verdict
cache_down =
    unavailable (codes "Cache service is temporarily unavailable.") (codes "CACHE_UNAVAILABLE")

abbrev cloud_down : Verdict
cloud_down =
    unavailable (codes "Cloud dependencies are temporarily unavailable.")
      (codes "CLOUD_DEPENDENCY_UNAVAILABLE")

-- Which of the four cases a value falls into, with the verdict on it.
thrown_verdict-cases :
    (t : Thrown)
    → ((is_database_error t || is_redis_error t || is_aws_error t) ≡ true)
        × ((thrown_verdict t ≡ database_down)
            ⊎ (thrown_verdict t ≡ cache_down)
            ⊎ (thrown_verdict t ≡ cloud_down))
      ⊎ ((is_database_error t || is_redis_error t || is_aws_error t) ≡ false)
        × (thrown_verdict t ≡ unexpected)
unfolding thrown_verdict
thrown_verdict-cases t = elim (Bool-cases (is_database_error t)) [
  | inl database ↦ rw database (inl (refl, inl refl))
  | inr no_database ↦ rw no_database (elim (Bool-cases (is_redis_error t)) [
    | inl redis ↦ rw redis (inl (refl, inr (inl refl)))
    | inr no_redis ↦ rw no_redis (elim (Bool-cases (is_aws_error t)) [
      | inl aws ↦ rw aws (inl (refl, inr (inr refl)))
      | inr no_aws ↦ rw no_aws (inr (refl, refl))
    ])
  ])
]

-- The error code tells the four verdicts apart.
decode : Text → Verdict
decode code =
    if text_eq code (codes "DATABASE_UNAVAILABLE")
    then database_down
    else if text_eq code (codes "CACHE_UNAVAILABLE")
    then cache_down
    else if text_eq code (codes "CLOUD_DEPENDENCY_UNAVAILABLE")
    then cloud_down
    else unexpected

decode-error_code : (t : Thrown) → decode (thrown_verdict t).error_code ≡ thrown_verdict t
unfolding decode unavailable unexpected text_eq
decode-error_code t = elim (thrown_verdict-cases t) [
  | inl (_, inl e) ↦ rw e refl
  | inl (_, inr (inl e)) ↦ rw e refl
  | inl (_, inr (inr e)) ↦ rw e refl
  | inr (_, e) ↦ rw e refl
]

-- A value that was thrown by anything but the framework and the domain is answered with one of four
-- fixed texts, whatever it says; the status is 500 exactly when it is recognised neither as an
-- error of the database, nor of the cache, nor of the cloud; and two such values whose responses
-- have the same error code have the same response.
pub respond-thrown :
    (t u : Thrown) (request : Request)
    → IsFixed (respond (thrown t) request) request
      × (((respond (thrown t) request).status ≡ 500)
          ↔ ((is_database_error t || is_redis_error t || is_aws_error t) ≡ false))
      × ((respond (thrown t) request).error_code ≡ (respond (thrown u) request).error_code
          → respond (thrown t) request ≡ respond (thrown u) request)
unfolding respond verdict_of unavailable unexpected
respond-thrown t u request = (
  elim (thrown_verdict-cases t) [
    | inl (_, inl e) ↦ rw e (_, inl refl, refl, refl, refl)
    | inl (_, inr (inl e)) ↦ rw e (_, inr (inl refl), refl, refl, refl)
    | inl (_, inr (inr e)) ↦ rw e (_, inr (inr (inl refl)), refl, refl, refl)
    | inr (_, e) ↦ rw e (_, inr (inr (inr (inl refl))), refl, refl, refl)
  ],
  elim (thrown_verdict-cases t) [
    | inl (known, inl e) ↦ ground (arith, known, e)
    | inl (known, inr (inl e)) ↦ ground (arith, known, e)
    | inl (known, inr (inr e)) ↦ ground (arith, known, e)
    | inr (unknown, e) ↦ ground (arith, unknown, e)
  ],
  λ same.
      let verdicts : thrown_verdict t ≡ thrown_verdict u =
        sym (decode-error_code t) ∙ ap decode same ∙ decode-error_code u in
      rw verdicts refl,
)
