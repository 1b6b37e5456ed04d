-- ===== src/Web/Handlers.antt =====
-- tr_bridge/adapters/web/handlers.py: the exception handlers, and what a request is answered with.
pub mod Answers
pub mod Tests
use text.Mathlib.Text.{◌==◌ as str_eq}
use trade_republic_bridge.Base.{
  ℕ, String, ◌≡◌, Bool, true, false, Option, none, some, List, [], ◌∷◌, ◌++◌, map, Result, ok, err,
  if◌then◌else◌,
}
use trade_republic_bridge.Domain.{lit, shown, DomainError, Exc, domain, foreign}
use trade_republic_bridge.Session.{Progress, awaits, returns, raises}
use trade_republic_bridge.Problem.{
  problem_detail, ClassAttrs, mro, to_problem_detail, Response, problem_response,
}

-- What leaves a request handler: the service's exceptions, Starlette's `HTTPException` and FastAPI's
-- `RequestValidationError`, with its text.
pub data AppError : Type 0 where
  of_exc : Exc → AppError
  http_error : ℕ → String → AppError
  validation_error : String → AppError

-- How the handling of a request ends, before the exception handlers: it still waits, has a value, or
-- was left by an error.
pub data Outcome (A : Type 0) : Type 0 where
  waits : Outcome A
  answers : A → Outcome A
  throws : AppError → Outcome A

abbrev pub outcome : {A : Type 0} → Progress A → Outcome A
outcome awaits = waits
outcome (returns a) = answers a
outcome (raises e) = throws (of_exc e)

abbrev pub mapped : {A B : Type 0} → (A → B) → Outcome A → Outcome B
mapped f waits = waits
mapped f (answers a) = answers (f a)
mapped f (throws e) = throws e

-- The classes that handlers are looked up by; `specific` is one with no handler of its own.
pub data ErrorClass : Type 0 where
  http_exception request_validation any_exception domain_class : ErrorClass
  specific : String → ErrorClass

abbrev class_of : ClassAttrs → ErrorClass
class_of c = if str_eq c.class_name "DomainError" then domain_class else specific c.class_name

-- The bases of an error, nearest first. `CancelledError` is no `Exception`.
pub bases : AppError → List ErrorClass
bases (of_exc (domain e)) = map class_of (mro e) ++ any_exception ∷ []
bases (of_exc (foreign f)) =
    if f.is_exception then specific f.type_name ∷ any_exception ∷ [] else specific f.type_name ∷ []
bases (http_error _ _) = http_exception ∷ any_exception ∷ []
bases (validation_error _) = request_validation ∷ any_exception ∷ []

-- The table that `register_handlers` makes.
abbrev pub registered : ErrorClass → Bool
registered http_exception = true
registered request_validation = true
registered any_exception = true
registered domain_class = true
registered (specific _) = false

-- Starlette's choice of a handler, by the table and the bases of the error.
pub record Starlette : Type 0 where
  pub pick : (ErrorClass → Bool) → List ErrorClass → Option ErrorClass
  -- The nearest base with a handler is taken.
  pub pick_here :
      (table : ErrorClass → Bool) (c : ErrorClass) (cs : List ErrorClass)
      → table c ≡ true
      → pick table (c ∷ cs) ≡ some c
  pub pick_later :
      (table : ErrorClass → Bool) (c : ErrorClass) (cs : List ErrorClass)
      → table c ≡ false
      → pick table (c ∷ cs) ≡ pick table cs
  pub pick_none : (table : ErrorClass → Bool) → pick table [] ≡ none

abbrev phrase_or : Option String → String
phrase_or (some phrase) = phrase
phrase_or none = "HTTP Error"

-- `http_exception_handler`; `phrase` is `HTTPStatus(status).phrase`, and `none` its `ValueError`.
pub http_exception_handler : {A : Type 0} → (ℕ → Option String) → ℕ → String → Response A
unfolding problem_detail
http_exception_handler phrase status detail =
    problem_response
      (problem_detail status "http_error" (phrase_or (phrase status)) (shown detail ∷ []))

-- `request_validation_error_handler`
pub request_validation_error_handler : {A : Type 0} → String → Response A
unfolding problem_detail
request_validation_error_handler text =
    problem_response
      (problem_detail 422 "validation_error" "Unprocessable Entity" (shown text ∷ []))

-- `unhandled_exception_handler`
pub unhandled_exception_handler : {A : Type 0} → Response A
unfolding problem_detail
unhandled_exception_handler = problem_response (
    problem_detail 500 "internal_error" "Internal server error"
      (lit "An unexpected error occurred." ∷ []))

-- `domain_error_handler`
pub domain_error_handler : {A : Type 0} → DomainError → Option (Response A)
domain_error_handler e = elim (to_problem_detail e) [
  | some d ↦ some (problem_response d)
  | none ↦ none
]

-- The handler of a class, called with an error of that class.
pub call_handler :
    {A : Type 0} → (ℕ → Option String) → Option ErrorClass → AppError → Option (Response A)
unfolding domain_error_handler
call_handler phrase (some domain_class) (of_exc (domain e)) = domain_error_handler e
call_handler phrase (some http_exception) (http_error status detail) =
    some (http_exception_handler phrase status detail)
call_handler phrase (some request_validation) (validation_error text) =
    some (request_validation_error_handler text)
call_handler phrase (some any_exception) _ = some unhandled_exception_handler
call_handler phrase _ _ = none

-- The response to an error; `none` where the error leaves the application.
pub handle : {A : Type 0} → Starlette → (ℕ → Option String) → AppError → Option (Response A)
unfolding bases call_handler
handle s phrase e = call_handler phrase (s.pick registered (bases e)) e

-- The response to a request, from what its handler returned or raised.
abbrev pub answer :
    {A : Type 0} → Starlette → (ℕ → Option String) → Result Exc (Response A) → Option (Response A)
answer s phrase (ok response) = some response
answer s phrase (err e) = handle s phrase (of_exc e)
