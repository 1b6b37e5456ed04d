-- ===== src/Web/Handlers/Tests.antt =====
-- A table of handlers, and the theorems of this directory applied to it.
use trade_republic_bridge.Base.{
  ℕ, String, refl, Bool, Option, some, none, List, [], ◌∷◌, if◌then◌else◌,
}
use trade_republic_bridge.Domain.{no_login_pending, domain, SessionState}
use trade_republic_bridge.Web.Handlers.{AppError, of_exc, ErrorClass, Starlette, handle}
use trade_republic_bridge.Web.Handlers.Answers.{Answered, handle_lem}

abbrev nearest : (ErrorClass → Bool) → List ErrorClass → Option ErrorClass
nearest table [] = none
nearest table (c ∷ cs) = if table c then some c else nearest table cs

abbrev pub starlette : Starlette
starlette = record {
  pick = nearest;
  pick_here = λ table c cs e. rw e refl;
  pick_later = λ table c cs e. rw e refl;
  pick_none = λ table. refl;
}

abbrev pub phrase : ℕ → Option String
phrase status = none

abbrev rejected : AppError
rejected = of_exc (domain (no_login_pending SessionState.push))

handle_lem_example : Answered {A = String} phrase rejected (handle starlette phrase rejected)
handle_lem_example = handle_lem starlette String phrase rejected
