-- ===== src/Web/Auth/Tests.antt =====
-- Concrete requests, and the theorems of this directory applied to them.
use trade_republic_bridge.Base.{ℕ, suc, String, ◌≡◌, refl, false, some}
use trade_republic_bridge.Web.Handlers.{Outcome, answers}
use trade_republic_bridge.Problem.{Response, problem_response, payload}
use trade_republic_bridge.Config.Tests.{config}
use trade_republic_bridge.Web.Auth.{
  Request, is_public, normal_path, unauthorized_problem, auth_middleware,
}
use trade_republic_bridge.Web.Auth.Access.{auth_middleware_lem}

abbrev request : String → Request
request key = record { path = "/instances/main/status"; x_api_key = some key }

-- A route that counts its calls.
abbrev route : Request → ℕ → Outcome (Response String) × ℕ
route r calls = (
  answers (record { status_code = 200; media_type = "application/json"; content = payload r.path }),
  suc calls,
)

protected : is_public "/instances/main/status" ≡ false
unfolding is_public normal_path
protected = refl

auth_middleware_lem_example :
    auth_middleware config (request "guess") route 0
    ≡ (answers (problem_response unauthorized_problem), 0)
unfolding is_public normal_path
auth_middleware_lem_example = auth_middleware_lem config (request "guess") route 0 refl
