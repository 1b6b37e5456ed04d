-- ===== src/App/Tests.antt =====
-- Concrete requests to a service with one instance, and the theorems of this directory applied to them.
use text.Mathlib.Text.{◌==◌ as str_eq}
use text.Mathlib.TextEquality.{eq_iff}
use text.Mathlib.TextLemmas.{append_cancel_left, cons-append}
use trade_republic_bridge.Base.{
  ℕ, code, String, ◌≡◌, ◌≢◌, refl, sym, ap, Bool, ◌∙◌, true, none, some, List, [], ◌∷◌, Result, ok,
  err, ◌⊎◌, ◌↔◌, inl, inr, arith, Bool-cases, if◌then◌else◌, ◌&&◌,
}
use trade_republic_bridge.Text.{◌<>◌}
use trade_republic_bridge.Problem.{Response, payload}
use trade_republic_bridge.Config.Tests.{env, config}
use trade_republic_bridge.Startup.{State, read_version}
use trade_republic_bridge.Startup.Ready.{lifespan_started}
use trade_republic_bridge.Startup.Tests.{answers as resumptions, load_config}
use trade_republic_bridge.Pytr.{Pytr}
use trade_republic_bridge.Pytr.Adapter.{IsLocal}
use trade_republic_bridge.Pytr.Tests.{working, working-IsLocal}
use trade_republic_bridge.Window.Tests.{iso}
use trade_republic_bridge.Registry.{lookup, resume_all}
use trade_republic_bridge.Registry.Built.{expected}
use trade_republic_bridge.Web.Handlers.Tests.{starlette, phrase}
use trade_republic_bridge.Web.Routes.{Payload, get_health}
use trade_republic_bridge.Web.Table.{Route, routes, fill}
use trade_republic_bridge.App.{
  app, call, dispatch, Handled, Found, matched, page, refused, Among, Application, Platform,
  Request, Shared, handled, respond,
}
use trade_republic_bridge.Web.Auth.Access.{auth_middleware_public}
use trade_republic_bridge.Web.Auth.Paths.{health_public}
use trade_republic_bridge.Web.Handlers.{answers}
use trade_republic_bridge.App.Shapes.{IsServed, response-IsServed}
use trade_republic_bridge.App.Keyless.{IsOpen, keyless_lem}
use trade_republic_bridge.Service.Requests.Effects.{Sound}
use trade_republic_bridge.App.Effects.{isolated}
use trade_republic_bridge.App.Runs.{started, requested, Runs-Reach}
use trade_republic_bridge.App.Answered.{Ends, answered_lem}

-- A router that knows one name.
abbrev first_fit : List Route → String → String → Found
first_fit [] method path = refused 404 "Not Found"
first_fit (r ∷ rs) method path =
    if str_eq r.method method && str_eq (fill r.path "main") path
    then matched r "main"
    else first_fit rs method path

matched_same : {x y : Route} {m n : String} → matched x m ≡ matched y n → (x ≡ y) × (m ≡ n)
matched_same e = (cc, cc)

both_true : {a b : Bool} → (a && b) ≡ true → (a ≡ true) × (b ≡ true)
both_true {a} {b} e = (ground arith, ground arith)

first_fit_sound :
    (table : List Route) (method path : String) (r : Route) (name : String)
    → first_fit table method path ≡ matched r name
    → Among r table × (r.method ≡ method) × (fill r.path name ≡ path)
first_fit_sound [] method path r name e = cc
first_fit_sound (x ∷ xs) method path r name e =
    elim (Bool-cases (str_eq x.method method && str_eq (fill x.path "main") path)) [
      | inl fits ↦
          let found : matched x "main" ≡ matched r name = rw fits at e in
          let (same_route, same_name) = matched_same found in
          let (m, q) = both_true fits in
          (
            inl (sym same_route),
            ap (λ (y : Route). y.method) (sym same_route) ∙ (eq_iff x.method method).0 m,
            cc (same_route, same_name, (eq_iff (fill x.path "main") path).0 q),
          )
      | inr other ↦
          let (among, m, p) = first_fit_sound xs method path r name (rw other at e) in
          (inr among, m, p)
    ]

abbrev find : Application → String → String → Found
find application method path =
    if str_eq path application.docs_url then page path else first_fit application.routes method path

pub find_route :
    (application : Application) (method path : String) (r : Route) (name : String)
    → find application method path ≡ matched r name
    → Among r application.routes × (r.method ≡ method) × (fill r.path name ≡ path)
find_route application method path r name e = elim (Bool-cases (str_eq path application.docs_url)) [
  | inl docs ↦ cc (rw docs at e)
  | inr other ↦ first_fit_sound application.routes method path r name (rw other at e)
]

first_fit_no_page :
    (table : List Route) (method path url : String) → first_fit table method path ≢ page url
first_fit_no_page [] method path url e = cc
first_fit_no_page (x ∷ xs) method path url e =
    elim (Bool-cases (str_eq x.method method && str_eq (fill x.path "main") path)) [
      | inl fits ↦ cc (rw fits at e)
      | inr other ↦ first_fit_no_page xs method path url (rw other at e)
    ]

pub find_page :
    (application : Application) (method path url : String)
    → find application method path ≡ page url
    → (path ≡ url)
      × ((url ≡ application.docs_url)
          ⊎ (url ≡ application.redoc_url)
          ⊎ (url ≡ application.openapi_url)
          ⊎ (url ≡ "/docs/oauth2-redirect"))
find_page application method path url e = elim (Bool-cases (str_eq path application.docs_url)) [
  | inl docs ↦
      let shown : page path ≡ page url = rw docs at e in
      let same : path ≡ url = cc in
      (same, inl (sym same ∙ (eq_iff path application.docs_url).0 docs))
  | inr other ↦ absurd (first_fit_no_page application.routes method path url (rw other at e))
]

-- A rendered body: the URL of a page, or a payload.
abbrev Rendered : Pytr → Type 0
Rendered p = Result String (Payload (List p.Event))

abbrev success : (p : Pytr) → ℕ → Rendered p → Response (Rendered p)
success p status_code body = record {
  status_code = status_code;
  media_type = "application/json";
  content = payload body;
}

abbrev pub host_of : (p : Pytr) → IsLocal p → Platform
host_of p local = record {
  pytr = p;
  local = local;
  iso = iso;
  handlers = starlette;
  phrase = phrase;
  pytr_version = "0.4.0";
  python_version = "3.12.1";
  version_file = some "1.0.0";
  Events = List p.Event;
  validate = λ events. ok events;
  Body = String;
  Rendered = Rendered p;
  read_code = λ body. ok body;
  render = λ payload. success p 200 (ok payload);
  render_page = λ url. success p 200 (err url);
  render_redirect = λ url. success p 307 (err url);
  find = find;
  find_route = find_route;
  find_page = find_page;
}

abbrev pub host : Platform
host = host_of working working-IsLocal

abbrev login_request : String → Request String
login_request key = record {
  http = record { path = "/instances/main/login"; x_api_key = some key };
  method = "POST";
  since = none;
  until = none;
  body = "";
  now = 0;
}

abbrev ready : State ℕ
ready = record {
  config = config;
  registry = (resume_all resumptions (expected config config.instances)).1;
}

keyless_lem_example :
    let (result, after) = handled host (login_request "guess") (ready, 0) in
    (after ≡ (ready, 0)) × IsOpen host result
keyless_lem_example = keyless_lem host (login_request "guess") (ready, 0) refl

abbrev first_code : String → ℕ
first_code String.[] = 0
first_code (String.◌∷◌ c s) = code c

-- The path belongs to `main`.
not_second : (suffix : String) → "/instances/" <> "second" <> suffix ≢ "/instances/main/login"
not_second suffix e =
    let rest : "second" <> suffix ≡ "main/login" =
      append_cancel_left "/instances/" ("second" <> suffix) "main/login" e in
    let first : code "s" ≡ code "m" = ap first_code (sym (cons-append "s" "econd" suffix) ∙ rest) in
    absurd (ground (arith, first))

isolated_example :
    let after = (handled host (login_request "secret") (ready, 0)).1 in
    (lookup "second" after.0.registry ≡ lookup "second" ready.registry)
    × (after.0.config ≡ config)
    × ((name : String)
        → (lookup name after.0.registry ≡ none) ↔ (lookup name ready.registry ≡ none))
isolated_example = isolated host (login_request "secret") (ready, 0) "second" not_second

abbrev asked : Shared host
asked = (handled host (login_request "secret") (ready, 0)).1

Runs-Reach_example : Sound asked.0.config.tfa_timeout asked.0.registry
Runs-Reach_example = Runs-Reach host env resumptions asked (
    requested (ready, 0) (login_request "secret")
      (started ready 0 (lifespan_started env resumptions load_config)))

answered_lem_example :
    Ends host
      (login_request "secret")
      (ready, 0)
      (respond host (login_request "secret") (ready, 0)).0
answered_lem_example = answered_lem host (login_request "secret") (ready, 0)

abbrev health_request : Request String
health_request = record (login_request "") {
  http = record { path = "/health"; x_api_key = none };
  method = "GET";
}

abbrev health_response : Response (Rendered working)
health_response = host.render (get_health (read_version (some "1.0.0")) "0.4.0" "3.12.1")

health_answers : (handled host health_request (ready, 0)).0 ≡ answers health_response
unfolding handled dispatch call app routes
health_answers =
    ap (λ (x : Handled host). x.0)
      (auth_middleware_public config health_request.http
        (λ http. dispatch host health_request (host.find (app host.version_file) "GET" http.path))
        (ready, 0) health_public)

response-IsServed_example : IsServed host health_request health_response
response-IsServed_example =
    response-IsServed host health_request (ready, 0) health_response health_answers
