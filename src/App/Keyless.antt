-- ===== src/App/Keyless.antt =====
-- What is answered without the API key (tr_bridge/main.py; tr_bridge/adapters/web/handlers.py;
-- tr_bridge/adapters/web/routes.py).
use text.Mathlib.Text.{◌==◌ as str_eq}
use text.Mathlib.TextLemmas.{append_assoc}
use trade_republic_bridge.Base.{
  ℕ, String, ◌≡◌, refl, sym, ap, ◌∙◌, Bool, true, false, none, some, ◌⊎◌, inl, inr, Bool-cases,
}
use trade_republic_bridge.Text.{◌<>◌}
use trade_republic_bridge.Domain.{foreign}
use trade_republic_bridge.Problem.{Response, problem_response}
use trade_republic_bridge.Startup.{read_version}
use trade_republic_bridge.Config.{Config}
use trade_republic_bridge.Web.Auth
use trade_republic_bridge.Web.Auth.{is_public, unauthorized_problem, not_ascii, auth_middleware}
use trade_republic_bridge.Web.Auth.Access.{
  comparable, auth_middleware_lem, auth_middleware_public, auth_middleware_raises,
}
use trade_republic_bridge.Web.Auth.Paths.{instances_protected}
use trade_republic_bridge.Web.Handlers.{of_exc, http_error, Outcome, answers, throws}
use trade_republic_bridge.Web.Routes.{root, get_health}
use trade_republic_bridge.Web.Table.{Endpoint, Route, routes, fill}
use trade_republic_bridge.App.{
  Found, matched, page, redirected, refused, Among, Platform, app, Request, Shared, call, dispatch,
  handled, Handled,
}

-- No path of a route below `/instances` is public.
below_protected : (rest : String) → is_public ("/instances/" <> rest) ≡ false
below_protected rest = rw (append_assoc "/instances" "/" rest) (instances_protected ("/" <> rest))

-- The header is the configured key.
abbrev has_key : Config → Auth.Request → Bool
has_key config request = elim request.x_api_key [
  | none ↦ false
  | some key ↦ str_eq key config.api_key
]

protected_not_open :
    {A : Type 0} {path : String} (rest : String)
    → "/instances" <> rest ≡ path
    → is_public path ≡ true
    → A
protected_not_open {A} rest e open_path =
    absurd (cc (instances_protected rest, ap is_public e, open_path))

below_not_open :
    {A : Type 0} {path : String} (rest : String)
    → "/instances/" <> rest ≡ path
    → is_public path ≡ true
    → A
below_not_open {A} rest e open_path = absurd (cc (below_protected rest, ap is_public e, open_path))

-- The only registered routes at a public path are the landing page and the health probe.
open_route :
    (r : Route) (name : String) {path : String}
    → Among r routes
    → fill r.path name ≡ path
    → is_public path ≡ true
    → (r.endpoint ≡ Endpoint.root) ⊎ (r.endpoint ≡ Endpoint.health)
unfolding routes
open_route r name (inl e) f o = inl (ap (λ (x : Route). x.endpoint) e)
open_route r name (inr (inl e)) f o = inr (ap (λ (x : Route). x.endpoint) e)
open_route r name (inr (inr (inl e))) f o =
    protected_not_open "" (ap (λ (x : Route). fill x.path name) (sym e) ∙ f) o
open_route r name (inr (inr (inr (inl e)))) f o =
    below_not_open (name <> "/status") (ap (λ (x : Route). fill x.path name) (sym e) ∙ f) o
open_route r name (inr (inr (inr (inr (inl e))))) f o =
    below_not_open (name <> "/login") (ap (λ (x : Route). fill x.path name) (sym e) ∙ f) o
open_route r name (inr (inr (inr (inr (inr (inl e)))))) f o =
    below_not_open (name <> "/login/2fa") (ap (λ (x : Route). fill x.path name) (sym e) ∙ f) o
open_route r name (inr (inr (inr (inr (inr (inr (inl e))))))) f o =
    below_not_open (name <> "/timeline") (ap (λ (x : Route). fill x.path name) (sym e) ∙ f) o
open_route r name (inr (inr (inr (inr (inr (inr (inr x))))))) f o = elim x [ ]

-- What the middleware does with a request that has not the key.
passes :
    {A S : Type 0} (config : Config) (request : Auth.Request)
    (call_next : Auth.Request → S → Outcome (Response A) × S) (s : S)
    → has_key config request ≡ false
    → ((is_public request.path ≡ true)
        × (auth_middleware config request call_next s ≡ call_next request s))
      ⊎ (auth_middleware config request call_next s
          ≡ (answers (problem_response unauthorized_problem), s))
      ⊎ (auth_middleware config request call_next s ≡ (throws (of_exc (foreign not_ascii)), s))
passes config request call_next s keyless = elim (Bool-cases (is_public request.path)) [
  | inl o ↦ inl (o, auth_middleware_public config request call_next s o)
  | inr o ↦ elim (Bool-cases (comparable config request)) [
    | inl c ↦ inr (inl (auth_middleware_lem config request call_next s c ∙ rw (o, keyless) refl))
    | inr c ↦ inr (inr (auth_middleware_raises config request call_next s o c))
  ]
]

module _ (host : Platform) where
  open host use {Body, Rendered}

  -- What may be answered without the key: the problem `unauthorized`, the `TypeError` for a text that
  -- is not ASCII, the landing page, the health probe, a page of the documentation, another URL, and
  -- the errors of FastAPI's routing.
  pub data IsOpen : Outcome (Response Rendered) → Type 0 where
    is_denied : IsOpen (answers (problem_response unauthorized_problem))
    is_failed : IsOpen (throws (of_exc (foreign not_ascii)))
    is_root : IsOpen (answers (host.render root))
    is_health : IsOpen (
        answers (
          host.render
            (get_health (read_version host.version_file) host.pytr_version host.python_version)))
    is_page : (url : String) → IsOpen (answers (host.render_page url))
    is_redirected : (url : String) → IsOpen (answers (host.render_redirect url))
    is_refused : (status : ℕ) (detail : String) → IsOpen (throws (http_error status detail))

  -- A request without the key changes nothing.
  abbrev IsHarmless : Shared host → Handled host → Type 0
  IsHarmless shared (result, after) = (after ≡ shared) × IsOpen result

  open_call :
      (e : Endpoint) (name : String) (request : Request Body) (shared : Shared host)
      → (e ≡ Endpoint.root) ⊎ (e ≡ Endpoint.health)
      → IsHarmless shared (call host e name request shared)
  unfolding call
  open_call Endpoint.root name request shared h = (refl, is_root)
  open_call Endpoint.health name request shared h = (refl, is_health)
  open_call _ name request shared (inl h) = cc
  open_call _ name request shared (inr h) = cc

  open_dispatch :
      (request : Request Body) (path : String) (found : Found) (shared : Shared host)
      → is_public path ≡ true
      → host.find (app host.version_file) request.method path ≡ found
      → IsHarmless shared (dispatch host request found shared)
  unfolding dispatch app
  open_dispatch request path (matched r name) shared o e =
      let (among, _, at) = host.find_route (app host.version_file) request.method path r name e in
      open_call r.endpoint name request shared (open_route r name among at o)
  open_dispatch request path (page url) shared o e = (refl, is_page url)
  open_dispatch request path (redirected url) shared o e = (refl, is_redirected url)
  open_dispatch request path (refused status detail) shared o e = (refl, is_refused status detail)

  -- A request whose header is missing or is not the configured key changes nothing: no session and no
  -- client, not the configuration, and Trade Republic hears nothing of it. It is answered as `IsOpen`
  -- says, so that no handler of a route under `/instances` has run.
  pub keyless_lem :
      (request : Request Body) (shared : Shared host)
      → has_key shared.0.config request.http ≡ false
      → let (result, after) = handled host request shared in (after ≡ shared) × IsOpen result
  unfolding handled
  keyless_lem request shared keyless =
      elim (passes shared.0.config request.http
        (λ http. dispatch host request (host.find (app host.version_file) request.method http.path))
        shared keyless) [
          | inl (o, e) ↦ rw e (open_dispatch request request.http.path _ shared o refl)
          | inr (inl e) ↦ rw e (refl, is_denied)
          | inr (inr e) ↦ rw e (refl, is_failed)
        ]
