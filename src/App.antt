-- ===== src/App.antt =====
-- The application that tr_bridge/main.py puts together: a request on its way through the middleware,
-- the routes and the exception handlers.
--
-- Requests are whole here: each is answered, or waits for the lock of its session, before the next
-- comes. Runs in which they overlap are in Service/Runs.antt.
pub mod Keyless
pub mod Effects
pub mod Runs
pub mod Answered
pub mod Login
pub mod Errors
pub mod Refusals
pub mod Timeline
pub mod Failures
pub mod Shapes
pub mod Tests
use trade_republic_bridge.Base.{
  ℕ, String, ◌≡◌, Option, none, some, List, [], ◌∷◌, Result, ok, err, ◌⊎◌,
}
use trade_republic_bridge.Domain.{Exc}
use trade_republic_bridge.Problem.{Response}
use trade_republic_bridge.Session.{Progress}
use trade_republic_bridge.Window.{Iso}
use trade_republic_bridge.Pytr.{Pytr}
use trade_republic_bridge.Pytr.Adapter.{IsLocal}
use trade_republic_bridge.Registry.{Registry}
use trade_republic_bridge.Startup.{State, read_version}
use trade_republic_bridge.Web.Auth.{auth_middleware}
use trade_republic_bridge.Web.Auth
use trade_republic_bridge.Web.Handlers.{
  AppError, http_error, Outcome, waits, answers, throws, outcome, mapped, Starlette, handle,
}
use trade_republic_bridge.Web.Routes.{Payload, root, get_health, get_instances, get_instance_status}
use trade_republic_bridge.Web.Table.{Endpoint, Route, routes, fill}
use trade_republic_bridge.Service.Requests.{Answer, request_login, request_2fa}
use trade_republic_bridge.Service.Requests.Timeline.{settled, request_timeline}

-- What FastAPI finds for a method and a path: a route with the text for its `{name}`, a page of the
-- documentation, another URL to go to, or an `HTTPException`.
pub data Found : Type 0 where
  matched : Route → String → Found
  page : String → Found
  redirected : String → Found
  refused : ℕ → String → Found

-- A member of a list.
abbrev pub Among : Route → List Route → Type 0
Among r [] = ⊥
Among r (x ∷ xs) = (r ≡ x) ⊎ Among r xs

-- The arguments of `FastAPI(…)`, with the routes that are registered.
pub record Application : Type 0 where
  pub title : String
  pub version : String
  pub description : String
  pub docs_url : String
  pub redoc_url : String
  pub openapi_url : String
  pub routes : List Route

-- `app`, with the text of the file `VERSION`, or `none` for an `OSError`
pub app : Option String → Application
app version_file = record {
  title = "tr-bridge";
  version = read_version version_file;
  description = "Thin HTTP wrapper around pytr for Trade Republic session management.";
  docs_url = "/docs";
  redoc_url = "/redoc";
  openapi_url = "/openapi.json";
  routes = routes;
}

-- What FastAPI, Starlette, pytr, pydantic and the interpreter do. `Rendered` is a rendered body.
pub record Platform : Type 1 where
  pub pytr : Pytr
  pub local : IsLocal pytr
  pub iso : Iso
  pub handlers : Starlette
  -- `HTTPStatus(status).phrase`
  pub phrase : ℕ → Option String
  pub pytr_version : String
  pub python_version : String
  -- The text of the file `VERSION`, or `none` for an `OSError`.
  pub version_file : Option String
  pub Events : Type 0
  pub validate : List pytr.Event → Result Exc Events
  pub Body : Type 0
  pub Rendered : Type 0
  -- The `code` of a `TwoFactorRequest`, or the error of a body that is none.
  pub read_code : Body → Result AppError String
  pub render : Payload Events → Response Rendered
  pub render_page : String → Response Rendered
  pub render_redirect : String → Response Rendered
  pub find : Application → String → String → Found
  -- A route is found only if it is registered and its method and path are those of the request.
  pub find_route :
      (application : Application) (method path : String) (r : Route) (name : String)
      → find application method path ≡ matched r name
      → Among r application.routes × (r.method ≡ method) × (fill r.path name ≡ path)
  -- A page of the documentation is found at its URL.
  pub find_page :
      (application : Application) (method path url : String)
      → find application method path ≡ page url
      → (path ≡ url)
        × ((url ≡ application.docs_url)
            ⊎ (url ≡ application.redoc_url)
            ⊎ (url ≡ application.openapi_url)
            ⊎ (url ≡ "/docs/oauth2-redirect"))

-- A request. `now` is the clock while it is handled.
pub record Request (Body : Type 0) : Type 0 where
  pub http : Auth.Request
  pub method : String
  pub since : Option String
  pub until : Option String
  pub body : Body
  pub now : ℕ

module _ (host : Platform) where
  open host use {pytr, local, Events, Body, Rendered}
  open pytr use {World, Api}

  -- What requests may change: `application.state`, and the world.
  abbrev pub Shared : Type 0
  Shared = State Api × World

  abbrev pub Handled : Type 0
  Handled = Outcome (Response Rendered) × Shared

  abbrev rendered : Progress (Payload Events) → Outcome (Response Rendered)
  rendered result = mapped host.render (outcome result)

  -- A handler that only reads.
  abbrev reads : Result Exc (Payload Events) → Shared → Handled
  reads result shared = (rendered (settled result), shared)

  -- A handler that works on the registry.
  abbrev writes : (Registry Api → World → Answer pytr local Events) → Shared → Handled
  writes call (state, w) =
      let (result, reg, v) = call state.registry w in
      (rendered result, (record state { registry = reg }, v))

  -- `post_instance_login_2fa`, after FastAPI has read the body.
  abbrev pub coded : String → Result AppError String → Shared → Handled
  coded name (ok code) shared = writes (request_2fa pytr local Events name code) shared
  coded name (err e) shared = (throws e, shared)

  -- The functions that `register_routes` decorates, called by FastAPI for a request.
  pub call : Endpoint → String → Request Body → Shared → Handled
  unfolding request_login request_2fa request_timeline
  call Endpoint.root name request shared = reads (ok root) shared
  call Endpoint.health name request shared =
      reads (ok (get_health (read_version host.version_file) host.pytr_version host.python_version))
        shared
  call Endpoint.get_instances name request shared =
      reads (ok (get_instances shared.0.config)) shared
  call Endpoint.get_instance_status name request shared =
      reads (get_instance_status name shared.0.registry) shared
  call Endpoint.post_instance_login name request shared =
      writes (request_login pytr local Events name) shared
  call Endpoint.post_instance_login_2fa name request shared =
      coded name (host.read_code request.body) shared
  call Endpoint.get_instance_timeline name request shared =
      writes
        (request_timeline pytr local Events host.iso host.validate request.now request.since
          request.until name)
        shared

  dispatch : Request Body → Found → Shared → Handled
  unfolding call
  dispatch request (matched r name) shared = call r.endpoint name request shared
  dispatch request (page url) shared = (answers (host.render_page url), shared)
  dispatch request (redirected url) shared = (answers (host.render_redirect url), shared)
  dispatch request (refused status detail) shared = (throws (http_error status detail), shared)

  -- A request in the application that `register_handlers` and `register_routes` made: the middleware
  -- is around all routes, and knows of the request what `Auth.Request` has.
  pub handled : Request Body → Shared → Handled
  unfolding dispatch app
  handled request shared =
      auth_middleware shared.0.config request.http
        (λ http. dispatch request (host.find (app host.version_file) request.method http.path))
        shared

  -- What the caller gets: nothing yet, a response, or, for what is no `Exception`, none.
  pub data Reply : Type 0 where
    pending : Reply
    reply : Response Rendered → Reply
    broken : Reply

  abbrev pub explained : Option (Response Rendered) → Reply
  explained (some response) = reply response
  explained none = broken

  abbrev pub replied : Outcome (Response Rendered) → Reply
  replied waits = pending
  replied (answers response) = reply response
  replied (throws e) = explained (handle host.handlers host.phrase e)

  pub respond : Request Body → Shared → Reply × Shared
  unfolding handled
  respond request shared = let (result, after) = handled request shared in (replied result, after)
