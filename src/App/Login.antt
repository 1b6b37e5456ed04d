-- ===== src/App/Login.antt =====
-- A login by HTTP requests (tr_bridge/main.py; tr_bridge/adapters/web/routes.py).
pub mod Tests
use trade_republic_bridge.Base.{String, ◌≡◌, ◌≢◌, refl, ap, ◌∙◌, true, false, some, ok}
use trade_republic_bridge.Config.{Env, Config}
use trade_republic_bridge.Session.{returns}
use trade_republic_bridge.Session.Calls.{IsQuiet}
use trade_republic_bridge.Pytr.Handle.{Has}
use trade_republic_bridge.Pytr.Errors.{Confirmed}
use trade_republic_bridge.Startup.{State}
use trade_republic_bridge.Registry.{Instance, Registry, Answers, lookup}
use trade_republic_bridge.Web.Auth.Access.{allowed, comparable, auth_middleware_lem}
use trade_republic_bridge.Web.Handlers.{answers}
use trade_republic_bridge.Web.Routes.{Payload, login_state, status, get_instance_status}
use trade_republic_bridge.Web.Table.{Endpoint, Route}
use trade_republic_bridge.Service.Requests.{request_login, request_2fa, login_requests}
use trade_republic_bridge.App.{
  matched, Platform, app, Request, Shared, call, dispatch, handled, reply, respond,
}
use trade_republic_bridge.App.Runs.{Runs, Runs-Reach}

module _ (host : Platform) where
  open host use {pytr, local, Events, Body, Rendered}
  open pytr use {World, Api}

  -- The request has the key, and FastAPI finds the endpoint for the name.
  pub record Addresses (config : Config) (endpoint : Endpoint) (name : String)
      (request : Request Body) : Type 0 where
    pub is_comparable : comparable config request.http ≡ true
    pub is_allowed : allowed config request.http ≡ true
    pub route : Route
    pub is_found :
        host.find (app host.version_file) request.method request.http.path ≡ matched route name
    pub is_for : route.endpoint ≡ endpoint

  pub handled_addressed :
      (endpoint : Endpoint) (name : String) (request : Request Body) (shared : Shared host)
      → Addresses shared.0.config endpoint name request
      → handled host request shared ≡ call host endpoint name request shared
  unfolding handled dispatch app
  handled_addressed endpoint name request shared a =
      auth_middleware_lem shared.0.config request.http
        (λ http. dispatch host request (host.find (app host.version_file) request.method http.path))
        shared a.is_comparable
      ∙ rw (a.is_allowed, a.is_found, a.is_for) refl

  -- What a request is replied that the handler answers.
  pub respond_addressed :
      (endpoint : Endpoint) (name : String) (request : Request Body) (shared after : Shared host)
      (payload : Payload Events)
      → Addresses shared.0.config endpoint name request
      → call host endpoint name request shared ≡ (answers (host.render payload), after)
      → respond host request shared ≡ (reply (host.render payload), after)
  unfolding respond
  respond_addressed endpoint name request shared after payload a e =
      rw (handled_addressed endpoint name request shared a, e) refl

  call_login :
      (name : String) (request : Request Body) (state : State Api) (w v : World)
      (payload : Payload Events) (reg : Registry Api)
      → request_login pytr local Events name state.registry w ≡ (returns payload, reg, v)
      → call host Endpoint.post_instance_login name request (state, w)
        ≡ (answers (host.render payload), (record state { registry = reg }, v))
  unfolding call
  call_login name request state w v payload reg e = rw e refl

  call_2fa :
      (name code : String) (request : Request Body) (state : State Api) (w v : World)
      (payload : Payload Events) (reg : Registry Api)
      → host.read_code request.body ≡ ok code
      → request_2fa pytr local Events name code state.registry w ≡ (returns payload, reg, v)
      → call host Endpoint.post_instance_login_2fa name request (state, w)
        ≡ (answers (host.render payload), (record state { registry = reg }, v))
  unfolding call
  call_2fa name code request state w v payload reg read e = rw (read, e) refl

  call_status :
      (name : String) (request : Request Body) (shared : Shared host) (payload : Payload Events)
      → get_instance_status name shared.0.registry ≡ ok payload
      → call host Endpoint.get_instance_status name request shared
        ≡ (answers (host.render payload), shared)
  unfolding call
  call_status name request shared payload e = rw e refl

  -- In a started service, whatever was asked of it before: if the instance has no login under way and a
  -- client with a handle, and Trade Republic has no web session to resume, starts a login that needs
  -- the authenticator and accepts the code with all that follows, then three requests with the key, for
  -- its login, with the code, and for its status, are replied `authenticator`, `confirmed` and the
  -- status `confirmed`, and no other instance changes.
  pub login_replies :
      (env : Env) (resumptions : Answers Api) (state : State Api) (w w₁ w₂ w₃ : World)
      (inst : Instance Api) {a : Api} (name code : String) (first second third : Request Body)
      → Runs host env resumptions (state, w)
      → lookup name state.registry ≡ some inst
      → IsQuiet inst.session
      → Has pytr inst.client a
      → pytr.resume_websession a w ≡ (ok false, w₁)
      → pytr.initiate_weblogin a w₁ ≡ (ok tt, w₂)
      → pytr.needs_authenticator a w₂ ≡ true
      → Confirmed pytr a code w₂ w₃
      → Addresses state.config Endpoint.post_instance_login name first
      → Addresses state.config Endpoint.post_instance_login_2fa name second
      → Addresses state.config Endpoint.get_instance_status name third
      → host.read_code second.body ≡ ok code
      → let (first_reply, asked) = respond host first (state, w) in
        let (second_reply, done) = respond host second asked in
        let (third_reply, after) = respond host third done in
        (first_reply ≡ reply (host.render (login_state "authenticator")))
        × (second_reply ≡ reply (host.render (login_state "confirmed")))
        × (third_reply ≡ reply (host.render (status name "confirmed")))
        × ((other : String)
            → other ≢ name
            → lookup other after.0.registry ≡ lookup other state.registry)
  login_replies env resumptions state w w₁ w₂ w₃ inst name code first second third runs known quiet
        h x y needed confirmed to_login to_code to_status read =
      let reach = Runs-Reach host env resumptions (state, w) runs name inst known in
      let (started, completed, shown, _, others) =
        login_requests pytr local Events name code state.registry inst w w₁ w₂ w₃ known reach quiet
          h x y needed confirmed in
      let asked = request_login pytr local Events name state.registry w in
      let done = request_2fa pytr local Events name code asked.1 asked.2 in
      let asked_state = record state { registry = asked.1 } in
      let done_state = record state { registry = done.1 } in
      rw
        (
          respond_addressed Endpoint.post_instance_login name first (state, w)
              (asked_state, asked.2) (login_state "authenticator") to_login
              (call_login name first state w asked.2 (login_state "authenticator") asked.1
                (ap (λ r. (r, asked.1, asked.2)) started)),
          respond_addressed Endpoint.post_instance_login_2fa name second (asked_state, asked.2)
              (done_state, done.2) (login_state "confirmed") to_code
              (call_2fa name code second asked_state asked.2 done.2 (login_state "confirmed") done.1
                read (ap (λ r. (r, done.1, done.2)) completed)),
          respond_addressed Endpoint.get_instance_status name third (done_state, done.2)
              (done_state, done.2) (status name "confirmed") to_status
              (call_status name third (done_state, done.2) (status name "confirmed") shown),
        )
        (refl, refl, refl, others)
