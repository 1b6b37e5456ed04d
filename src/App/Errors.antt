-- ===== src/App/Errors.antt =====
-- Errors on their way to the caller (tr_bridge/main.py; tr_bridge/adapters/web/routes.py;
-- tr_bridge/adapters/web/handlers.py).
pub mod Tests
use trade_republic_bridge.Base.{ℕ, String, ◌≡◌, refl, none, some, ok}
use trade_republic_bridge.Domain.{domain, instance_not_found}
use trade_republic_bridge.Problem.{ProblemDetail, problem_response}
use trade_republic_bridge.Window.{DateTime, parse_window}
use trade_republic_bridge.Pytr
use trade_republic_bridge.Registry.{lookup}
use trade_republic_bridge.Web.Handlers.{AppError, of_exc, throws, handle}
use trade_republic_bridge.Web.Handlers.Answers.{handle_lem}
use trade_republic_bridge.Web.Routes.{get_instance_status}
use trade_republic_bridge.Web.Routes.Outcomes.{get-none}
use trade_republic_bridge.Web.Table.{Endpoint}
use trade_republic_bridge.Service.Requests.{on_instance_unknown, request_login, request_2fa}
use trade_republic_bridge.Service.Requests.Timeline.{request_timeline}
use trade_republic_bridge.App.{Platform, Request, Shared, Reply, call, reply, respond}
use trade_republic_bridge.App.Login.{Addresses, handled_addressed}

module _ (host : Platform) where
  open host use {pytr, local, Events, Body, Rendered}
  open pytr use {World, Api}

  -- A reply that is a problem with this status and code.
  abbrev pub IsProblem : Reply host → ℕ × String → Type 0
  IsProblem answer status_and_code =
      (d : ProblemDetail) × (answer ≡ reply (problem_response d))
      × ((d.status, d.code) ≡ status_and_code)

  -- The endpoint asks the registry for the instance: it has a name in its path, and what FastAPI and
  -- the handler read before is in order.
  abbrev pub Asks : Endpoint → Request Body → Type 0
  Asks Endpoint.get_instance_status request = Unit
  Asks Endpoint.post_instance_login request = Unit
  Asks Endpoint.post_instance_login_2fa request =
      (code : String) × (host.read_code request.body ≡ ok code)
  Asks Endpoint.get_instance_timeline request =
      (since : DateTime) × (until : DateTime) × (parse_window host.iso request.now request.since
          request.until
        ≡ ok (since, until))
  Asks _ request = ⊥

  call_unknown :
      (e : Endpoint) (name : String) (request : Request Body) (shared : Shared host)
      → Asks e request
      → lookup name shared.0.registry ≡ none
      → call host e name request shared
        ≡ (throws (of_exc (domain (instance_not_found name))), shared)
  unfolding call request_login request_2fa request_timeline get_instance_status
  call_unknown Endpoint.get_instance_status name request (state, w) asks missing =
      rw (get-none state.registry name missing) refl
  call_unknown Endpoint.post_instance_login name request (state, w) asks missing =
      rw (on_instance_unknown pytr local Events _ _ name state.registry w missing) refl
  call_unknown Endpoint.post_instance_login_2fa name request (state, w) (code, read) missing =
      rw (read, on_instance_unknown pytr local Events _ _ name state.registry w missing) refl
  call_unknown Endpoint.get_instance_timeline name request (state, w) (since, until, window)
        missing =
      rw (window, on_instance_unknown pytr local Events _ _ name state.registry w missing) refl
  call_unknown _ name request shared asks missing = absurd asks

  pub respond_raised :
      (endpoint : Endpoint) (name : String) (request : Request Body) (shared after : Shared host)
      (e : AppError) (d : ProblemDetail)
      → Addresses host shared.0.config endpoint name request
      → call host endpoint name request shared ≡ (throws e, after)
      → handle {A = Rendered} host.handlers host.phrase e ≡ some (problem_response d)
      → respond host request shared ≡ (reply (problem_response d), after)
  unfolding respond
  respond_raised endpoint name request shared after e d a raised answered =
      rw (handled_addressed host endpoint name request shared a, raised, answered) refl

  -- A request with the key for an instance that the registry does not hold is replied the problem 404
  -- `instance_not_found`, whichever of the four routes of an instance it is for, and changes nothing,
  -- provided that a timeline request has a valid window and a request with a code a body that can be
  -- read: both are looked at before the name.
  pub unknown_replied :
      (endpoint : Endpoint) (name : String) (request : Request Body) (shared : Shared host)
      → Addresses host shared.0.config endpoint name request
      → Asks endpoint request
      → lookup name shared.0.registry ≡ none
      → let (answer, after) = respond host request shared in
        IsProblem answer (404, "instance_not_found") × (after ≡ shared)
  unknown_replied endpoint name request shared a asks missing =
      let e = of_exc (domain (instance_not_found name)) in
      let (d, answered, status, _) = handle_lem host.handlers Rendered host.phrase e in
      rw
        (respond_raised endpoint name request shared shared e d a
          (call_unknown endpoint name request shared asks missing) answered)
        ((d, refl, status), refl)
