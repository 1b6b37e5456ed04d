-- ===== src/Web/Auth.antt =====
-- tr_bridge/auth.py and the middleware of tr_bridge/adapters/web/handlers.py: who may call what.
pub mod Access
pub mod Paths
mod Tests
use text.Mathlib.Text.{◌==◌ as str_eq}
use trade_republic_bridge.Base.{
  ℕ, String, Bool, true, false, ◌&&◌, Option, none, some, List, [], ◌∷◌, Result, ok, err,
  if◌then◌else◌, ◌==◌,
}
use trade_republic_bridge.Text.{is_empty, is_ascii, rstrip}
use trade_republic_bridge.Domain.{lit, Foreign, foreign}
use trade_republic_bridge.Web.Handlers.{of_exc, Outcome, answers, throws}
use trade_republic_bridge.Problem.{ProblemDetail, problem_detail, Response, problem_response}
use trade_republic_bridge.Config.{Config, contains}

-- What the middleware reads of a request: `request.url.path` and the header `X-API-Key`.
pub record Request : Type 0 where
  pub path : String
  pub x_api_key : Option String

abbrev pub not_ascii : Foreign
not_ascii = record {
  type_name = "TypeError";
  text = "comparing strings with non-ASCII characters is not supported";
  is_exception = true;
  is_value_error = false;
  is_request = false;
  status_code = none;
}

-- `secrets.compare_digest` on two texts
pub compare_digest : String → String → Result Foreign Bool
compare_digest a b = if is_ascii a && is_ascii b then ok (str_eq a b) else err not_ascii

-- An `UnauthorizedException`, or what the comparison raised.
pub data Denied : Type 0 where
  unauthorized : Denied
  failed : Foreign → Denied

abbrev decide : Result Foreign Bool → Result Denied (Unit {0})
decide (ok true) = ok tt
decide (ok false) = err unauthorized
decide (err f) = err (failed f)

-- `check_api_key`
pub check_api_key : Request → Config → Result Denied (Unit {0})
unfolding compare_digest
check_api_key request config = elim request.x_api_key [
  | none ↦ err unauthorized
  | some key ↦ decide (compare_digest key config.api_key)
]

-- `_PUBLIC_PATHS`
abbrev pub public_paths : List String
public_paths = "/" ∷ "/health" ∷ "/openapi.json" ∷ "/docs" ∷ "/docs/oauth2-redirect" ∷ "/redoc" ∷ []

abbrev pub is_slash : ℕ → Bool
is_slash c = c == b'/'

abbrev or_root : String → String
or_root path = if is_empty path then "/" else path

-- `request.url.path.rstrip("/") or "/"`
pub normal_path : String → String
normal_path path = or_root (rstrip is_slash path)

pub is_public : String → Bool
unfolding normal_path
is_public path = contains (normal_path path) public_paths

-- The body of the 401 that the middleware answers.
pub unauthorized_problem : ProblemDetail
unfolding problem_detail
unauthorized_problem =
    problem_detail 401 "unauthorized" "Unauthorized"
      (lit "Missing or invalid API key. Provide a valid X-API-Key header." ∷ [])

-- `auth_middleware`, over what `call_next` may change
pub auth_middleware :
    {A S : Type 0}
    → Config
    → Request
    → (Request → S → Outcome (Response A) × S)
    → S
    → Outcome (Response A) × S
unfolding check_api_key unauthorized_problem
auth_middleware config request call_next s =
    if is_public request.path then call_next request s else elim (check_api_key request config) [
      | ok _ ↦ call_next request s
      | err unauthorized ↦ (answers (problem_response unauthorized_problem), s)
      | err (failed f) ↦ (throws (of_exc (foreign f)), s)
    ]
