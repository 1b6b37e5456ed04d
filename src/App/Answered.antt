-- ===== src/App/Answered.antt =====
-- Which requests get a response (tr_bridge/main.py; tr_bridge/adapters/web/handlers.py).
use trade_republic_bridge.Base.{
  ℕ, String, ◌≡◌, ◌≢◌, refl, Option, sym, ap, ◌∙◌, false, none, some, ok, err, inl, inr, Result,
  Result-cases, Option-cases,
}
use trade_republic_bridge.Text.{◌<>◌}
use trade_republic_bridge.Domain.{Exc, Foreign, foreign, SessionState, state_value}
use trade_republic_bridge.Problem.{Response}
use trade_republic_bridge.Session.{Session, Progress, awaits, returns, raises, is_free}
use trade_republic_bridge.Session.Calls.Runs.{start_login-awaits, submit_2fa-ends}
use trade_republic_bridge.Session.Driven.{login, submit, timeline}
use trade_republic_bridge.Session.Driven.Laws.{login_lem, submit_lem}
use trade_republic_bridge.Window.{parse_window}
use trade_republic_bridge.Pytr.{Client}
use trade_republic_bridge.Pytr.Adapter.{pytr_port}
use trade_republic_bridge.Registry.{Instance, Registry, lookup}
use trade_republic_bridge.Web.Auth.Access.{auth_middleware-either, IsDenied-ends}
use trade_republic_bridge.Web.Table.{Endpoint, Route, routes, named, fill}
use trade_republic_bridge.Web.Handlers.{
  AppError, of_exc, Outcome, waits, answers, throws, outcome, mapped, handle,
}
use trade_republic_bridge.Web.Handlers.Answers.{handle-none}
use trade_republic_bridge.Web.Routes.{Payload, login_state, progress_map}
use trade_republic_bridge.Service.Requests.{
  on_instance, on_instance_known, on_instance_unknown, request_login, request_2fa,
}
use trade_republic_bridge.Service.Requests.Timeline.{settled, rendered, request_timeline}
use trade_republic_bridge.App.{
  Found, matched, page, redirected, refused, Among, Platform, app, Request, Shared, coded, call,
  dispatch, handled, Reply, pending, reply, broken, explained, replied, respond,
}

progress_map-awaits :
    {A B : Type 0} (f : A → B) (r : Progress A) → progress_map f r ≡ awaits → r ≡ awaits
progress_map-awaits f awaits e = refl
progress_map-awaits f (returns a) e = cc
progress_map-awaits f (raises x) e = cc

waits-awaits :
    {A B : Type 0} (f : A → B) (r : Progress A) → mapped f (outcome r) ≡ waits → r ≡ awaits
waits-awaits f awaits e = refl
waits-awaits f (returns a) e = cc
waits-awaits f (raises x) e = cc

settled-ends : {A : Type 0} (r : Result Exc A) → settled r ≢ awaits
settled-ends (ok a) e = cc
settled-ends (err x) e = cc

login_route :
    (r : Route)
    → Among r routes
    → r.endpoint ≡ Endpoint.post_instance_login
    → (r.method ≡ "POST") × (r.path ≡ named "/instances/" "/login")
unfolding routes
login_route r (inr (inr (inr (inr (inl e))))) h =
    (ap (λ (x : Route). x.method) e, ap (λ (x : Route). x.path) e)
login_route r (inl e) h = cc
login_route r (inr (inl e)) h = cc
login_route r (inr (inr (inl e))) h = cc
login_route r (inr (inr (inr (inl e)))) h = cc
login_route r (inr (inr (inr (inr (inr (inl e)))))) h = cc
login_route r (inr (inr (inr (inr (inr (inr (inl e))))))) h = cc
login_route r (inr (inr (inr (inr (inr (inr (inr x))))))) h = elim x [ ]

module _ (host : Platform) where
  open host use {Body, pytr, local, Events, Rendered}
  open pytr use {World, Api, Event}

  -- The lock of the instance is taken, or others wait for it.
  abbrev IsTaken : String → Registry Api → Type 0
  IsTaken name reg =
      (inst : Instance Api) × (lookup name reg ≡ some inst) × (is_free inst.session ≡ false)

  -- A call waits only if the call of the session does.
  on_instance-awaits :
      {A : Type 0}
      (run : Session → Client Api × World → Progress A × Session × (Client Api × World))
      (render : A → Session → Payload Events) (name : String) (reg : Registry Api) (w : World)
      → (on_instance pytr local Events run render name reg w).0 ≡ awaits
      → (inst : Instance Api) × (lookup name reg ≡ some inst)
        × ((run inst.session (inst.client, w)).0 ≡ awaits)
  on_instance-awaits run render name reg w e = elim (Option-cases (lookup name reg)) [
    | inl missing ↦
        cc (rw (on_instance_unknown pytr local Events run render name reg w missing) at e)
    | inr (inst, known) ↦ (
      inst,
      known,
      progress_map-awaits _ _
          (rw (on_instance_known pytr local Events run render name reg w known) at e),
    )
  ]

  login-waits :
      (name : String) (reg : Registry Api) (w : World)
      → (request_login pytr local Events name reg w).0 ≡ awaits
      → IsTaken name reg
  unfolding request_login
  login-waits name reg w e =
      let (inst, known, held) =
        on_instance-awaits (login (pytr_port pytr local))
          (λ state _. login_state (state_value state)) name reg w e in
      (
        inst,
        known,
        start_login-awaits _ _ inst.session (
            ap (λ (x : Progress SessionState × Session). x.0)
              (sym (login_lem (pytr_port pytr local) inst.session (inst.client, w)).0)
            ∙ held),
      )

  code_ends :
      (name code : String) (reg : Registry Api) (w : World)
      → (request_2fa pytr local Events name code reg w).0 ≢ awaits
  unfolding request_2fa
  code_ends name code reg w e =
      let (inst, known, held) =
        on_instance-awaits (submit (pytr_port pytr local) code)
          (λ _ s. login_state (state_value s.state)) name reg w e in
      submit_2fa-ends _ inst.session (
        ap (λ (x : Progress (Unit {0}) × Session). x.0)
          (sym (submit_lem (pytr_port pytr local) code inst.session (inst.client, w)).0)
        ∙ held)

  timeline_ends :
      (now : ℕ) (since until : Option String) (name : String) (reg : Registry Api) (w : World)
      → (request_timeline pytr local Events host.iso host.validate now since until name reg w).0
        ≢ awaits
  unfolding request_timeline
  timeline_ends now since until name reg w held =
      elim (Result-cases (parse_window host.iso now since until)) [
        | inr (x, e) ↦ cc (rw e at held)
        | inl ((a, b), e) ↦
            let (inst, known, still) =
              on_instance-awaits
                (λ s c.
                  rendered pytr local Events host.iso host.validate name a b s
                    (timeline (pytr_port pytr local) a b s c))
                (λ payload _. payload) name reg w (rw e at held) in
            settled-ends _ still
      ]

  -- A request that waits is a login whose instance is taken.
  coded_ends :
      (name : String) (code : Result AppError String) (shared : Shared host)
      → (coded host name code shared).0 ≢ waits
  coded_ends name (ok code) (state, w) e = code_ends name code state.registry w (waits-awaits _ _ e)
  coded_ends name (err x) shared e = cc

  call-waits :
      (e : Endpoint) (name : String) (request : Request Body) (shared : Shared host)
      → (call host e name request shared).0 ≡ waits
      → (e ≡ Endpoint.post_instance_login) × IsTaken name shared.0.registry
  unfolding call
  call-waits Endpoint.post_instance_login name request (state, w) h =
      (refl, login-waits name state.registry w (waits-awaits _ _ h))
  call-waits Endpoint.post_instance_login_2fa name request shared h =
      absurd (coded_ends name (host.read_code request.body) shared h)
  call-waits Endpoint.get_instance_timeline name request (state, w) h = absurd (
      timeline_ends request.now request.since request.until name state.registry w
        (waits-awaits _ _ h))
  call-waits Endpoint.get_instance_status name request shared h =
      absurd (settled-ends _ (waits-awaits _ _ h))
  call-waits Endpoint.root name request shared h = cc
  call-waits Endpoint.health name request shared h = cc
  call-waits Endpoint.get_instances name request shared h = cc

  -- The request is a login of an instance whose lock is taken.
  abbrev IsLate : Request Body → Shared host → Type 0
  IsLate request shared =
      (name : String) × (request.method ≡ "POST")
      × ("/instances/" <> name <> "/login" ≡ request.http.path)
      × IsTaken name shared.0.registry

  dispatch-waits :
      (request : Request Body) (found : Found) (shared : Shared host)
      → host.find (app host.version_file) request.method request.http.path ≡ found
      → (dispatch host request found shared).0 ≡ waits
      → IsLate request shared
  unfolding dispatch app
  dispatch-waits request (matched r name) shared e h =
      let (among, method, at) =
        host.find_route (app host.version_file) request.method request.http.path r name e in
      let (endpoint, taken) = call-waits r.endpoint name request shared h in
      let (post, template) = login_route r among endpoint in
      (name, sym method ∙ post, ap (λ t. fill t name) (sym template) ∙ at, taken)
  dispatch-waits request (page url) shared e h = cc
  dispatch-waits request (redirected url) shared e h = cc
  dispatch-waits request (refused status detail) shared e h = cc

  handled-waits :
      (request : Request Body) (shared : Shared host)
      → (handled host request shared).0 ≡ waits
      → IsLate request shared
  unfolding handled
  handled-waits request shared h =
      elim (auth_middleware-either shared.0.config request.http
        (λ http. dispatch host request (host.find (app host.version_file) request.method http.path))
        shared) [
          | inl e ↦ dispatch-waits request _ shared refl (rw e at h)
          | inr (_, denied) ↦ absurd (IsDenied-ends denied h)
        ]

  -- What a reply that is no response means.
  abbrev pub Ends : Request Body → Shared host → Reply host → Type 0
  Ends request shared pending = IsLate request shared
  Ends request shared (reply response) = Unit
  Ends request shared broken =
      (f : Foreign) × ((handled host request shared).0 ≡ throws (of_exc (foreign f)))
      × (f.is_exception ≡ false)

  explained-Ends :
      (request : Request Body) (shared : Shared host) (x : AppError)
      (response : Option (Response Rendered))
      → (handled host request shared).0 ≡ throws x
      → handle {A = Rendered} host.handlers host.phrase x ≡ response
      → Ends request shared (explained host response)
  explained-Ends request shared x (some response) e missing = tt
  explained-Ends request shared x none e missing =
      let (f, is_foreign, fatal) = handle-none host.handlers host.phrase x missing in
      (f, e ∙ ap throws is_foreign, fatal)

  replied-Ends :
      (request : Request Body) (shared : Shared host) (result : Outcome (Response Rendered))
      → (handled host request shared).0 ≡ result
      → Ends request shared (replied host result)
  replied-Ends request shared waits e = handled-waits request shared e
  replied-Ends request shared (answers response) e = tt
  replied-Ends request shared (throws x) e = explained-Ends request shared x _ e refl

  -- Every request gets a response, unless it is a login of an instance whose lock is taken, which
  -- waits for it, or its handler is left by something that is no `Exception`.
  pub answered_lem :
      (request : Request Body) (shared : Shared host)
      → Ends request shared (respond host request shared).0
  unfolding respond
  answered_lem request shared = replied-Ends request shared _ refl
