-- ===== src/Web/Auth/Access.antt =====
-- Who gets past the middleware (tr_bridge/auth.py; tr_bridge/adapters/web/handlers.py:
-- `auth_middleware`).
use text.Mathlib.Text.{◌==◌ as str_eq}
use trade_republic_bridge.Base.{
  ◌≡◌, ◌≢◌, Bool, true, false, none, some, arith, ◌&&◌, ◌||◌, if◌then◌else◌, Bool-cases,
  Result-cases, ◌⊎◌, inl, inr,
}
use trade_republic_bridge.Text.{is_ascii}
use trade_republic_bridge.Domain.{Foreign, foreign}
use trade_republic_bridge.Web.Handlers.{of_exc, Outcome, waits, answers, throws}
use trade_republic_bridge.Problem.{Response, problem_response}
use trade_republic_bridge.Config.{Config}
use trade_republic_bridge.Web.Auth.{
  unauthorized, failed, Request, not_ascii, compare_digest, check_api_key, is_public,
  unauthorized_problem, auth_middleware,
}

-- The path is public, or the header is the configured key.
abbrev pub allowed : Config → Request → Bool
allowed config request =
    is_public request.path
    || elim request.x_api_key [ none ↦ false | some key ↦ str_eq key config.api_key ]

-- The header, if there is one, and the configured key are ASCII.
abbrev pub comparable : Config → Request → Bool
comparable config request = elim request.x_api_key [
  | none ↦ true
  | some key ↦ is_ascii key && is_ascii config.api_key
]

-- A request for a public path is handed on, whatever its header.
pub auth_middleware_public :
    {A S : Type 0} (config : Config) (request : Request)
    (call_next : Request → S → Outcome (Response A) × S) (s : S)
    → is_public request.path ≡ true
    → auth_middleware config request call_next s ≡ call_next request s
unfolding auth_middleware
auth_middleware_public config request call_next s o = ground arith

-- If the header is missing, or it and the configured key are ASCII, the middleware hands a request
-- on, unchanged, when its path is public or its header is the configured key, and answers the problem
-- `unauthorized` to every other request without calling the route, so that nothing changes.
pub auth_middleware_lem :
    {A S : Type 0} (config : Config) (request : Request)
    (call_next : Request → S → Outcome (Response A) × S) (s : S)
    → comparable config request ≡ true
    → auth_middleware config request call_next s ≡ (
        if allowed config request
        then call_next request s
        else (answers (problem_response unauthorized_problem), s))
unfolding auth_middleware check_api_key compare_digest
auth_middleware_lem config request call_next s c = ground arith

-- On a path that is not public, a header or a configured key that is not ASCII makes the middleware
-- raise the `TypeError` of `compare_digest`: neither a 401 nor the route's answer, and nothing
-- changes.
pub auth_middleware_raises :
    {A S : Type 0} (config : Config) (request : Request)
    (call_next : Request → S → Outcome (Response A) × S) (s : S)
    → is_public request.path ≡ false
    → comparable config request ≡ false
    → auth_middleware config request call_next s ≡ (throws (of_exc (foreign not_ascii)), s)
unfolding auth_middleware check_api_key compare_digest
auth_middleware_raises config request call_next s p c = ground arith

-- The middleware's own answer, or what its comparison raised.
abbrev IsDenied : {A : Type 0} → Outcome (Response A) → Type 0
IsDenied result =
    (result ≡ answers (problem_response unauthorized_problem))
    ⊎ ((f : Foreign) × (result ≡ throws (of_exc (foreign f))))

pub IsDenied-ends : {A : Type 0} {result : Outcome (Response A)} → IsDenied result → result ≢ waits
IsDenied-ends (inl e) h = cc
IsDenied-ends (inr (f, e)) h = cc

-- The middleware hands a request on, or answers it or raises, and changes nothing.
pub auth_middleware-either :
    {A S : Type 0} (config : Config) (request : Request)
    (call_next : Request → S → Outcome (Response A) × S) (s : S)
    → (auth_middleware config request call_next s ≡ call_next request s)
      ⊎ (let (result, after) = auth_middleware config request call_next s in
          (after ≡ s) × IsDenied result)
unfolding auth_middleware
auth_middleware-either config request call_next s = elim (Bool-cases (is_public request.path)) [
  | inl o ↦ inl (auth_middleware_public config request call_next s o)
  | inr o ↦ elim (Result-cases (check_api_key request config)) [
    | inl (_, e) ↦ inl (ground arith)
    | inr (unauthorized, e) ↦ inr (ground arith, inl (ground arith))
    | inr (failed f, e) ↦ inr (ground arith, inr (f, ground arith))
  ]
]
