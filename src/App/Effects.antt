-- ===== src/App/Effects.antt =====
-- What a request changes (tr_bridge/main.py; tr_bridge/adapters/web/routes.py).
use trade_republic_bridge.Base.{
  String, ◌≡◌, ◌≢◌, refl, sym, subst, ap, ◌∙◌, none, ok, err, ◌⊎◌, ◌↔◌, inr, Result, inl,
}
use trade_republic_bridge.Text.{◌<>◌}
use trade_republic_bridge.Registry.{lookup}
use trade_republic_bridge.Web.Auth.Access.{auth_middleware-either}
use trade_republic_bridge.Web.Table.{Endpoint, Route, routes, named, fill}
use trade_republic_bridge.Web.Handlers.{AppError}
use trade_republic_bridge.Service.Requests.Effects.{
  Touches, untouched, request_login-Touches, request_2fa-Touches, request_timeline-Touches,
}
use trade_republic_bridge.App.{
  Found, matched, page, redirected, refused, Among, Platform, app, Request, Shared, coded, call,
  dispatch, handled,
}

module _ (host : Platform) where
  open host use {Body, pytr, local, Events}
  open pytr use {World, Api}

  -- A request for the instance keeps the configuration and touches no other instance.
  pub record Leaves (name : String) (shared after : Shared host) : Type 0 where
    pub configured : after.0.config ≡ shared.0.config
    pub touched : Touches shared.0.config.tfa_timeout name shared.0.registry after.0.registry

  unchanged : (name : String) (shared : Shared host) → Leaves name shared shared
  unchanged name shared = record {
    configured = refl;
    touched = untouched shared.0.config.tfa_timeout name shared.0.registry;
  }

  coded-Leaves :
      (name : String) (code : Result AppError String) (shared : Shared host)
      → Leaves name shared (coded host name code shared).1
  coded-Leaves name (ok code) (state, w) = record {
    configured = refl;
    touched =
        request_2fa-Touches pytr local Events state.config.tfa_timeout name state.registry w code;
  }
  coded-Leaves name (err e) shared = unchanged name shared

  call-Leaves :
      (e : Endpoint) (name : String) (request : Request Body) (shared : Shared host)
      → Leaves name shared (call host e name request shared).1
  unfolding call
  call-Leaves Endpoint.post_instance_login name request (state, w) = record {
    configured = refl;
    touched =
        request_login-Touches pytr local Events state.config.tfa_timeout name state.registry w;
  }
  call-Leaves Endpoint.post_instance_login_2fa name request shared =
      coded-Leaves name (host.read_code request.body) shared
  call-Leaves Endpoint.get_instance_timeline name request (state, w) = record {
    configured = refl;
    touched =
        request_timeline-Touches pytr local Events state.config.tfa_timeout name state.registry w
          host.iso host.validate request.now request.since request.until;
  }
  call-Leaves e name request shared = unchanged name shared

  abbrev Reads : Route → Type 0
  Reads r =
      (name : String) (request : Request Body) (shared : Shared host)
      → (call host r.endpoint name request shared).1 ≡ shared

  abbrev IsNamed : Route → Type 0
  IsNamed r = (suffix : String) × (r.path ≡ named "/instances/" suffix)

  only-Reads : {r x : Route} → r ≡ x → Reads x → Reads r ⊎ IsNamed r
  only-Reads e h = inl (subst Reads (sym e) h)

  only-IsNamed : {r x : Route} → r ≡ x → IsNamed x → Reads r ⊎ IsNamed r
  only-IsNamed e h = inr (subst IsNamed (sym e) h)

  -- The routes with a `{name}` stand below `/instances/`, and the other ones only read.
  Reads-or_IsNamed : (r : Route) → Among r routes → Reads r ⊎ IsNamed r
  unfolding routes call
  Reads-or_IsNamed r (inl e) = only-Reads e (λ name request shared. refl)
  Reads-or_IsNamed r (inr (inl e)) = only-Reads e (λ name request shared. refl)
  Reads-or_IsNamed r (inr (inr (inl e))) = only-Reads e (λ name request shared. refl)
  Reads-or_IsNamed r (inr (inr (inr (inl e)))) = only-IsNamed e (_, refl)
  Reads-or_IsNamed r (inr (inr (inr (inr (inl e))))) = only-IsNamed e (_, refl)
  Reads-or_IsNamed r (inr (inr (inr (inr (inr (inl e)))))) = only-IsNamed e (_, refl)
  Reads-or_IsNamed r (inr (inr (inr (inr (inr (inr (inl e))))))) = only-IsNamed e (_, refl)
  Reads-or_IsNamed r (inr (inr (inr (inr (inr (inr (inr x))))))) = elim x [ ]

  -- What the route that is found does.
  dispatch_effect :
      (request : Request Body) (path : String) (found : Found) (shared : Shared host)
      → host.find (app host.version_file) request.method path ≡ found
      → let after = (dispatch host request found shared).1 in
        (after ≡ shared)
        ⊎ ((name : String) × (suffix : String) × ("/instances/" <> name <> suffix ≡ path)
            × Leaves name shared after)
  unfolding dispatch app
  dispatch_effect request path (matched r name) shared e =
      let (among, _, at) = host.find_route (app host.version_file) request.method path r name e in
      elim (Reads-or_IsNamed r among) [
        | inl reads ↦ inl (reads name request shared)
        | inr (suffix, template) ↦ inr (
          name,
          suffix,
          ap (λ t. fill t name) (sym template) ∙ at,
          call-Leaves r.endpoint name request shared,
        )
      ]
  dispatch_effect request path (page url) shared e = inl refl
  dispatch_effect request path (redirected url) shared e = inl refl
  dispatch_effect request path (refused status detail) shared e = inl refl

  -- A request changes nothing, or it is for an instance whose name stands after `/instances/` in its
  -- path.
  pub effect :
      (request : Request Body) (shared : Shared host)
      → let after = (handled host request shared).1 in
        (after ≡ shared)
        ⊎ ((name : String) × (suffix : String) × ("/instances/" <> name <> suffix
              ≡ request.http.path)
            × Leaves name shared after)
  unfolding handled
  effect request shared =
      elim (auth_middleware-either shared.0.config request.http
        (λ http. dispatch host request (host.find (app host.version_file) request.method http.path))
        shared) [
          | inl e ↦ rw e (dispatch_effect request request.http.path _ shared refl)
          | inr e ↦ inl e.0
        ]

  -- A request whose path is not below `/instances/` and a name keeps the session and the client of that
  -- name, and every request keeps the configuration and the names of the registry.
  pub isolated :
      (request : Request Body) (shared : Shared host) (other : String)
      → ((suffix : String) → "/instances/" <> other <> suffix ≢ request.http.path)
      → let after = (handled host request shared).1 in
        (lookup other after.0.registry ≡ lookup other shared.0.registry)
        × (after.0.config ≡ shared.0.config)
        × ((name : String)
            → (lookup name after.0.registry ≡ none) ↔ (lookup name shared.0.registry ≡ none))
  isolated request shared other away = elim (effect request shared) [
    | inl e ↦ rw e (refl, refl, λ name. ((λ x. x), λ x. x))
    | inr (name, suffix, at, leaves) ↦ (
      leaves.touched.others other
          (λ e. away suffix (ap (λ n. "/instances/" <> n <> suffix) e ∙ at)),
      leaves.configured,
      leaves.touched.names,
    )
  ]
