-- ===== src/App/Failures.antt =====
-- Requests that end as 500 `internal_error` (tr_bridge/main.py; tr_bridge/auth.py;
-- tr_bridge/timewindow.py; tr_bridge/adapters/web/handlers.py).

mod Tests
use trade_republic_bridge.Base.{
  ℕ, String, ◌≡◌, refl, ◌∙◌, true, false, Option, some, List, Result, ok, err, ◌&&◌, ◌⊎◌, inl, inr,
  arith,
}
use trade_republic_bridge.Text.{is_ascii, ◌<>◌}
use trade_republic_bridge.Domain.{SessionState, Exc, foreign}
use trade_republic_bridge.Problem.{problem_response}
use trade_republic_bridge.Session.{raises}
use trade_republic_bridge.Session.Driven.Laws.{timeline_confirmed}
use trade_republic_bridge.Window.{DateTime, Iso, parse_window, overflow}
use trade_republic_bridge.Window.Utc.{IsOutOfRange, to_utc_iso-overflow, to_utc_iso-either}
use trade_republic_bridge.Pytr.Handle.{Has}
use trade_republic_bridge.Pytr.Adapter.{pytr_port}
use trade_republic_bridge.Pytr.Timeline.{Fetched, fetch_timeline_iff}
use trade_republic_bridge.Startup.{State}
use trade_republic_bridge.Registry.{Instance, lookup, insert}
use trade_republic_bridge.Registry.Lookup.{lookup-insert_same}
use trade_republic_bridge.Web.Auth.{not_ascii}
use trade_republic_bridge.Web.Auth.Access.{comparable, auth_middleware_raises}
use trade_republic_bridge.Web.Auth.Paths.{instances_protected}
use trade_republic_bridge.Web.Handlers.{of_exc, throws}
use trade_republic_bridge.Web.Handlers.Answers.{internal, handle_lem}
use trade_republic_bridge.Web.Routes.{timeline_response}
use trade_republic_bridge.Web.Table.{Endpoint}
use trade_republic_bridge.Service.Requests.{on_instance_known}
use trade_republic_bridge.Service.Requests.Timeline.{request_timeline}
use trade_republic_bridge.App.{
  Platform, Request, Shared, app, call, dispatch, handled, reply, respond,
}
use trade_republic_bridge.App.Errors.{respond_raised}
use trade_republic_bridge.App.Login.{Addresses}

-- An end that cannot be printed makes the rendering of the events raise.
unprintable :
    {Event Events : Type 0} (iso : Iso) (validate : List Event → Result Exc Events) (name : String)
    (since until : DateTime) (events : List Event)
    → IsOutOfRange since ⊎ IsOutOfRange until
    → timeline_response iso validate name since until events ≡ err (foreign overflow)
unprintable iso validate name since until events (inl out) =
    ground (arith, to_utc_iso-overflow iso since out)
unprintable iso validate name since until events (inr out) = elim (to_utc_iso-either iso since) [
  | inl (x, printed) ↦ ground (arith, printed, to_utc_iso-overflow iso until out)
  | inr over ↦ ground (arith, over)
]

module _ (host : Platform) where
  open host use {pytr, local, Events, Body, Rendered}
  open pytr use {World, Api}

  -- A request below `/instances` with a key, where this key or the configured one is not ASCII, is
  -- replied the problem 500 `internal_error`, even if the two keys are the same, and changes nothing.
  pub not_ascii_replied :
      (request : Request Body) (shared : Shared host) (rest key : String)
      → request.http.path ≡ "/instances" <> rest
      → request.http.x_api_key ≡ some key
      → (is_ascii key && is_ascii shared.0.config.api_key) ≡ false
      → respond host request shared ≡ (reply (problem_response internal), shared)
  unfolding respond handled
  not_ascii_replied request shared rest key at given not_both =
      rw
        (
          auth_middleware_raises shared.0.config request.http
              (λ http.
                dispatch host request (host.find (app host.version_file) request.method http.path))
              shared (rw at (instances_protected rest)) (rw given not_both),
          handle_lem host.handlers Rendered host.phrase (of_exc (foreign not_ascii)),
        )
        refl

  overflows :
      (now : ℕ) (start stop : Option String) (name : String) (state : State Api) (w v : World)
      (inst : Instance Api) {a : Api} (since until : DateTime) (events : List pytr.Event)
      → lookup name state.registry ≡ some inst
      → inst.session.state ≡ SessionState.confirmed
      → Has pytr inst.client a
      → parse_window host.iso now start stop ≡ ok (since, until)
      → Fetched pytr inst.client a since until w v events
      → IsOutOfRange since ⊎ IsOutOfRange until
      → request_timeline pytr local Events host.iso host.validate now start stop name state.registry
          w
        ≡ (raises (foreign overflow), insert name inst state.registry, v)
  unfolding request_timeline
  overflows now start stop name state w v inst since until events known confirmed h window run out =
      rw
        (
          window,
          on_instance_known pytr local Events _ _ name state.registry w known,
          timeline_confirmed (pytr_port pytr local) since until inst.session (inst.client, w)
              confirmed,
          (fetch_timeline_iff pytr inst.client w v since until events h).1 run,
          unprintable host.iso host.validate name since until events out,
        )
        refl

  -- A timeline request with the key, for a confirmed session of a known instance whose client has a
  -- handle, and a window that is accepted but has an end that no wall clock in UTC between the years 1
  -- and 9999 shows: pytr refreshes the web session and fetches the events, and then the reply is the
  -- problem 500 `internal_error`. Every instance keeps its session and its client.
  pub overflow_replied :
      (state : State Api) (w v : World) (inst : Instance Api) {a : Api} (name : String)
      (request : Request Body) (since until : DateTime) (events : List pytr.Event)
      → lookup name state.registry ≡ some inst
      → inst.session.state ≡ SessionState.confirmed
      → Has pytr inst.client a
      → Addresses host state.config Endpoint.get_instance_timeline name request
      → parse_window host.iso request.now request.since request.until ≡ ok (since, until)
      → Fetched pytr inst.client a since until w v events
      → IsOutOfRange since ⊎ IsOutOfRange until
      → let (answer, left) = respond host request (state, w) in
        (answer ≡ reply (problem_response internal))
        × ((other : String) → lookup other left.0.registry ≡ lookup other state.registry)
        × (left.1 ≡ v)
  unfolding call
  overflow_replied state w v inst name request since until events known confirmed h addressed window
        run out =
      let raised =
        overflows request.now request.since request.until name state w v inst since until events
          known confirmed h window run out in
      rw
        (respond_raised host Endpoint.get_instance_timeline name request (state, w)
          (record state { registry = insert name inst state.registry }, v)
          (of_exc (foreign overflow)) internal addressed (rw raised refl)
          (handle_lem host.handlers Rendered host.phrase (of_exc (foreign overflow))))
        (refl, λ other. lookup-insert_same name other inst state.registry known, refl)
