-- ===== src/App/Shapes.antt =====
-- What the handlers return against what they declare (tr_bridge/adapters/web/routes.py).
use trade_republic_bridge.Base.{
  ℕ, String, ◌≡◌, refl, ap, subst, ◌∙◌, Option, List, Result, ok, err, inl, inr, ◌>>=◌, arith,
  Option-cases, Result-cases,
}
use trade_republic_bridge.Domain.{Exc, state_value}
use trade_republic_bridge.Problem.{Response, problem_response}
use trade_republic_bridge.Session.{Session, Progress, awaits, returns, raises}
use trade_republic_bridge.Session.Driven.{login, submit, timeline}
use trade_republic_bridge.Window.{DateTime, parse_window}
use trade_republic_bridge.Pytr.{Client}
use trade_republic_bridge.Pytr.Adapter.{pytr_port}
use trade_republic_bridge.Startup.{read_version}
use trade_republic_bridge.Registry.{Instance, Registry, lookup}
use trade_republic_bridge.Web.Auth.{unauthorized_problem}
use trade_republic_bridge.Web.Auth.Access.{auth_middleware-either}
use trade_republic_bridge.Web.Handlers.{AppError, answers, outcome, mapped}
use trade_republic_bridge.Web.Routes.{
  Payload, progress_map, login_state, timeline_response, get_instance_status, root, get_health,
  get_instances,
}
use trade_republic_bridge.Web.Table.{Endpoint, Route, routes, fill, response_model, model_of}
use trade_republic_bridge.Service.Requests.{
  on_instance, on_instance_known, on_instance_unknown, request_login, request_2fa,
}
use trade_republic_bridge.Service.Requests.Timeline.{settled, rendered, request_timeline}
use trade_republic_bridge.App.{
  Found, matched, page, redirected, refused, Among, app, Platform, Request, Shared, coded, call,
  dispatch, handled,
}

progress_map-returns :
    {A B : Type 0} (f : A → B) (r : Progress A) {b : B}
    → progress_map f r ≡ returns b
    → (a : A) × (r ≡ returns a) × (b ≡ f a)
progress_map-returns f awaits e = cc
progress_map-returns f (returns a) e = (a, refl, cc)
progress_map-returns f (raises x) e = cc

mapped-answers :
    {A B : Type 0} (f : A → B) (r : Progress A) {b : B}
    → mapped f (outcome r) ≡ answers b
    → (a : A) × (r ≡ returns a) × (b ≡ f a)
mapped-answers f awaits e = cc
mapped-answers f (returns a) e = (a, refl, cc)
mapped-answers f (raises x) e = cc

settled-returns : {A : Type 0} (r : Result Exc A) {a : A} → settled r ≡ returns a → r ≡ ok a
settled-returns (ok b) e = cc
settled-returns (err x) e = cc

module _ (host : Platform) where
  open host use {Body, pytr, local, Events, Rendered}
  open pytr use {World, Api, Event}

  -- A response with a payload of the declared model.
  abbrev IsOf : Endpoint → Response Rendered → Type 0
  IsOf e response =
      (payload : Payload Events) × (response ≡ host.render payload)
      × (model_of payload ≡ response_model e)

  on_instance-returns :
      {A : Type 0}
      (run : Session → Client Api × World → Progress A × Session × (Client Api × World))
      (render : A → Session → Payload Events) (name : String) (reg : Registry Api) (w : World)
      {payload : Payload Events}
      → (on_instance pytr local Events run render name reg w).0 ≡ returns payload
      → (inst : Instance Api) × (a : A) × ((run inst.session (inst.client, w)).0 ≡ returns a)
        × ((s : Session) × (payload ≡ render a s))
  on_instance-returns run render name reg w e = elim (Option-cases (lookup name reg)) [
    | inl missing ↦
        cc (rw (on_instance_unknown pytr local Events run render name reg w missing) at e)
    | inr (inst, known) ↦
        let (a, returned, same) =
          progress_map-returns _ _
            (rw (on_instance_known pytr local Events run render name reg w known) at e) in
        (inst, a, returned, (_, same))
  ]

  login_model :
      (name : String) (reg : Registry Api) (w : World) {payload : Payload Events}
      → (request_login pytr local Events name reg w).0 ≡ returns payload
      → model_of payload ≡ response_model Endpoint.post_instance_login
  unfolding request_login
  login_model name reg w e =
      let (_, _, _, (_, same)) =
        on_instance-returns (login (pytr_port pytr local))
          (λ state _. login_state (state_value state)) name reg w e in
      ap model_of same

  code_model :
      (name code : String) (reg : Registry Api) (w : World) {payload : Payload Events}
      → (request_2fa pytr local Events name code reg w).0 ≡ returns payload
      → model_of payload ≡ response_model Endpoint.post_instance_login_2fa
  unfolding request_2fa
  code_model name code reg w e =
      let (_, _, _, (_, same)) =
        on_instance-returns (submit (pytr_port pytr local) code)
          (λ _ s. login_state (state_value s.state)) name reg w e in
      ap model_of same

  response_model_timeline :
      (name : String) (since until : DateTime) (events : List Event) {payload : Payload Events}
      → timeline_response host.iso host.validate name since until events ≡ ok payload
      → model_of payload ≡ response_model Endpoint.get_instance_timeline
  response_model_timeline name since until events e = ground arith

  events_model :
      (name : String) (since until : DateTime) (r : Result Exc (List Event))
      {payload : Payload Events}
      → (r >>= timeline_response host.iso host.validate name since until) ≡ ok payload
      → model_of payload ≡ response_model Endpoint.get_instance_timeline
  events_model name since until (ok events) e = response_model_timeline name since until events e
  events_model name since until (err x) e = cc

  timeline_model :
      (now : ℕ) (since until : Option String) (name : String) (reg : Registry Api) (w : World)
      {payload : Payload Events}
      → (request_timeline pytr local Events host.iso host.validate now since until name reg w).0
        ≡ returns payload
      → model_of payload ≡ response_model Endpoint.get_instance_timeline
  unfolding request_timeline
  timeline_model now since until name reg w returned =
      elim (Result-cases (parse_window host.iso now since until)) [
        | inr (x, e) ↦ cc (rw e at returned)
        | inl ((a, b), e) ↦
            let (inst, made, held, (_, same)) =
              on_instance-returns
                (λ s c.
                  rendered pytr local Events host.iso host.validate name a b s
                    (timeline (pytr_port pytr local) a b s c))
                (λ payload _. payload) name reg w (rw e at returned) in
            ap model_of same ∙ events_model name a b _ (settled-returns _ held)
      ]

  status_model :
      (name : String) (reg : Registry Api) {payload : Payload Events}
      → get_instance_status name reg ≡ ok payload
      → model_of payload ≡ response_model Endpoint.get_instance_status
  unfolding get_instance_status
  status_model name reg e = ground arith

  coded_model :
      (name : String) (code : Result AppError String) (shared : Shared host)
      {response : Response Rendered}
      → (coded host name code shared).0 ≡ answers response
      → IsOf Endpoint.post_instance_login_2fa response
  coded_model name (ok code) (state, w) e =
      let (payload, returned, same) = mapped-answers _ _ e in
      (payload, same, code_model name code state.registry w returned)
  coded_model name (err x) shared e = cc

  call_model :
      (e : Endpoint) (name : String) (request : Request Body) (shared : Shared host)
      {response : Response Rendered}
      → (call host e name request shared).0 ≡ answers response
      → IsOf e response
  unfolding call root get_health get_instances
  call_model Endpoint.root name request shared h = (root, cc, refl)
  call_model Endpoint.health name request shared h =
      (get_health (read_version host.version_file) host.pytr_version host.python_version, cc, refl)
  call_model Endpoint.get_instances name request shared h =
      (get_instances shared.0.config, cc, refl)
  call_model Endpoint.get_instance_status name request shared h =
      let (payload, returned, same) = mapped-answers _ _ h in
      (payload, same, status_model name shared.0.registry (settled-returns _ returned))
  call_model Endpoint.post_instance_login name request (state, w) h =
      let (payload, returned, same) = mapped-answers _ _ h in
      (payload, same, login_model name state.registry w returned)
  call_model Endpoint.post_instance_login_2fa name request shared h =
      coded_model name (host.read_code request.body) shared h
  call_model Endpoint.get_instance_timeline name request (state, w) h =
      let (payload, returned, same) = mapped-answers _ _ h in
      (
        payload,
        same,
        timeline_model request.now request.since request.until name state.registry w returned,
      )

  -- Where a response comes from.
  pub data IsServed (request : Request Body) : Response Rendered → Type 0 where
    is_denied : IsServed request (problem_response unauthorized_problem)
    is_page : (url : String) → IsServed request (host.render_page url)
    is_redirected : (url : String) → IsServed request (host.render_redirect url)
    is_payload :
        (r : Route) (name : String) (payload : Payload Events)
        → Among r routes
        → r.method ≡ request.method
        → fill r.path name ≡ request.http.path
        → model_of payload ≡ response_model r.endpoint
        → IsServed request (host.render payload)

  IsServed-as :
      {request : Request Body} {response other : Response Rendered}
      → IsServed request response
      → response ≡ other
      → IsServed request other
  IsServed-as {request} served e = subst (IsServed request) e served

  dispatch_serves :
      (request : Request Body) (found : Found) (shared : Shared host) {response : Response Rendered}
      → host.find (app host.version_file) request.method request.http.path ≡ found
      → (dispatch host request found shared).0 ≡ answers response
      → IsServed request response
  unfolding dispatch app
  dispatch_serves request (matched r name) shared e h =
      let (among, method, at) =
        host.find_route (app host.version_file) request.method request.http.path r name e in
      let (payload, same, model) = call_model r.endpoint name request shared h in
      rw same (is_payload r name payload among method at model)
  dispatch_serves request (page url) shared e h = IsServed-as (is_page url) cc
  dispatch_serves request (redirected url) shared e h = IsServed-as (is_redirected url) cc
  dispatch_serves request (refused status detail) shared e h = cc

  -- Every response of the application, but those of the exception handlers, is the problem
  -- `unauthorized`, a page of the documentation, a redirection, or the payload of a registered route
  -- that has the method and the path of the request, and is of the model that the route declares.
  pub response-IsServed :
      (request : Request Body) (shared : Shared host) (response : Response Rendered)
      → (handled host request shared).0 ≡ answers response
      → IsServed request response
  unfolding handled
  response-IsServed request shared response h =
      elim (auth_middleware-either shared.0.config request.http
        (λ http. dispatch host request (host.find (app host.version_file) request.method http.path))
        shared) [
          | inl e ↦ dispatch_serves request _ shared refl (rw e at h)
          | inr (_, inl e) ↦ IsServed-as is_denied cc
          | inr (_, inr (f, e)) ↦ cc
        ]
