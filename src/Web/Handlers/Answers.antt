-- ===== src/Web/Handlers/Answers.antt =====
-- What the exception handlers answer (tr_bridge/adapters/web/handlers.py: `register_handlers`).
use trade_republic_bridge.Base.{
  Bool-cases, inl, inr, if◌then◌else◌, ℕ, String, ◌≡◌, refl, ◌∙◌, true, false, Option, none, some,
  List, [], ◌∷◌, arith,
}
use trade_republic_bridge.Domain.{
  lit, shown, DomainError, login_in_progress, code_rejected, rate_limited, tr_upstream,
  session_expired, invalid_request, invalid_state, no_login_pending, instance_not_found, Foreign,
  domain, foreign,
}
use trade_republic_bridge.Problem.{
  Response, ProblemDetail, problem_detail, problem_response, to_problem_detail, detail, mro,
}
use trade_republic_bridge.Problem.Laws.{documented, to_problem_detail_lem}
use trade_republic_bridge.Web.Handlers.{
  AppError, of_exc, http_error, validation_error, ErrorClass, http_exception, request_validation,
  any_exception, domain_class, specific, bases, registered, Starlette, http_exception_handler,
  request_validation_error_handler, unhandled_exception_handler, domain_error_handler, call_handler,
  handle,
}

-- The title of a status with this phrase.
abbrev title_of : Option String → String
title_of none = "HTTP Error"
title_of (some phrase) = phrase

-- The problem that says nothing of its cause.
abbrev pub internal : ProblemDetail
internal =
    problem_detail 500 "internal_error" "Internal server error"
      (lit "An unexpected error occurred." ∷ [])

-- A response with the problem of a domain error.
abbrev AnswersDomain : {A : Type 0} → DomainError → Option (Response A) → Type 0
AnswersDomain e r =
    (d : ProblemDetail) × (r ≡ some (problem_response d))
    × ((d.status, d.code) ≡ documented e)
    × (d.detail ≡ detail e)

-- What each error is meant to be answered with.
abbrev pub Answered : {A : Type 0} → (ℕ → Option String) → AppError → Option (Response A) → Type 0
Answered phrase (of_exc (domain e)) r = AnswersDomain e r
Answered phrase (of_exc (foreign f)) r =
    r ≡ (if f.is_exception then some (problem_response internal) else none)
Answered phrase (http_error status text) r =
    r
    ≡ some (
        problem_response
          (problem_detail status "http_error" (title_of (phrase status)) (shown text ∷ [])))
Answered phrase (validation_error text) r =
    r
    ≡ some (
        problem_response
          (problem_detail 422 "validation_error" "Unprocessable Entity" (shown text ∷ [])))

domain_answer :
    {A : Type 0} (e : DomainError) {d : ProblemDetail}
    → to_problem_detail e ≡ some d
    → domain_error_handler {A = A} e ≡ some (problem_response d)
unfolding domain_error_handler
domain_answer e made = ground arith

module _ (s : Starlette) where
  second :
      (name : String) {c : ErrorClass} {cs : List ErrorClass}
      → registered c ≡ true
      → s.pick registered (specific name ∷ c ∷ cs) ≡ some c
  second name {c} {cs} e =
      s.pick_later registered (specific name) _ refl ∙ s.pick_here registered c cs e

  picks_domain :
      (e : DomainError) → s.pick registered (bases (of_exc (domain e))) ≡ some domain_class
  unfolding bases mro
  picks_domain (login_in_progress m) = second "LoginInProgressError" refl
  picks_domain (code_rejected m) = second "CodeRejectedError" refl
  picks_domain (rate_limited m) = second "RateLimitedError" refl
  picks_domain (tr_upstream m) = second "TrUpstreamError" refl
  picks_domain (session_expired m) = second "SessionExpiredError" refl
  picks_domain (invalid_request m) = second "InvalidRequestError" refl
  picks_domain (invalid_state st) = second "InvalidStateError" refl
  picks_domain (no_login_pending st) =
      s.pick_later registered (specific "NoLoginPendingError") _ refl
      ∙ second "InvalidStateError" refl
  picks_domain (instance_not_found name) = second "InstanceNotFoundError" refl

  domain_lem :
      {A : Type 0} (phrase : ℕ → Option String) (e : DomainError)
      → AnswersDomain {A = A} e (handle s phrase (of_exc (domain e)))
  unfolding handle call_handler
  domain_lem phrase e =
      let (d, made, status, own, _) = to_problem_detail_lem e in
      (d, rw (picks_domain e) (domain_answer e made), status, own)

  foreign_lem :
      {A : Type 0} (phrase : ℕ → Option String) (f : Foreign)
      → handle {A = A} s phrase (of_exc (foreign f))
        ≡ (if f.is_exception then some (problem_response internal) else none)
  unfolding handle call_handler bases unhandled_exception_handler
  foreign_lem phrase f = elim (Bool-cases f.is_exception) [
    | inl e ↦ rw (e, second f.type_name {c = any_exception} {cs = []} refl) refl
    | inr e ↦
        rw (e, s.pick_later registered (specific f.type_name) [] refl, s.pick_none registered) refl
  ]

  -- Every error that leaves a handler is answered. A domain error gives a problem with its own detail
  -- and the status and code that `documented` lists for it, an instance that is not known, say, 404
  -- `instance_not_found`. Any other `Exception` gives the problem 500 `internal_error`, which repeats
  -- nothing of it, and what is no `Exception` leaves the application. An `HTTPException` gives its
  -- status with the code `http_error`, titled by the phrase of the status or `HTTP Error`, and a
  -- request that does not fit its schema, one without a `code` among them, the problem 422
  -- `validation_error`.
  pub handle_lem :
      (A : Type 0) (phrase : ℕ → Option String) (e : AppError)
      → Answered {A = A} phrase e (handle {A = A} s phrase e)
  unfolding handle call_handler bases http_exception_handler request_validation_error_handler
  handle_lem A phrase (of_exc (domain e)) = domain_lem phrase e
  handle_lem A phrase (of_exc (foreign f)) = foreign_lem phrase f
  handle_lem A phrase (http_error status text) =
      rw (s.pick_here registered http_exception (any_exception ∷ []) refl) (ground arith)
  handle_lem A phrase (validation_error text) =
      rw (s.pick_here registered request_validation (any_exception ∷ []) refl) refl

  -- Only what is no `Exception` has no response.
  pub handle-none :
      {A : Type 0} (phrase : ℕ → Option String) (e : AppError)
      → handle {A = A} s phrase e ≡ none
      → (f : Foreign) × (e ≡ of_exc (foreign f)) × (f.is_exception ≡ false)
  handle-none {A} phrase (of_exc (domain e)) missing =
      let (d, answered, _, _) = handle_lem A phrase (of_exc (domain e)) in cc (answered, missing)
  handle-none {A} phrase (of_exc (foreign f)) missing = elim (Bool-cases f.is_exception) [
    | inr e ↦ (f, refl, e)
    | inl e ↦ absurd (ground (arith, foreign_lem {A = A} phrase f))
  ]
  handle-none {A} phrase (http_error status text) missing =
      cc (handle_lem A phrase (http_error status text), missing)
  handle-none {A} phrase (validation_error text) missing =
      cc (handle_lem A phrase (validation_error text), missing)
