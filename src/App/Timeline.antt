-- ===== src/App/Timeline.antt =====
-- A timeline request (tr_bridge/main.py; tr_bridge/adapters/web/routes.py), and one whose refresh of
-- the web session Trade Republic refuses (tr_bridge/adapters/pytr/pytr_client.py;
-- tr_bridge/adapters/web/handlers.py).
pub mod Tests
use trade_republic_bridge.Base.{ℕ, String, ◌≡◌, refl, Option, some, List, ok, length}
use trade_republic_bridge.Domain.{SessionState}
use trade_republic_bridge.Session.{returns}
use trade_republic_bridge.Session.Driven.Laws.{timeline_confirmed}
use trade_republic_bridge.Window.{DateTime, parse_window, to_utc_iso}
use trade_republic_bridge.Pytr.Handle.{Has}
use trade_republic_bridge.Pytr.Adapter.{pytr_port}
use trade_republic_bridge.Pytr.Timeline.{Fetched, fetch_timeline_iff}
use trade_republic_bridge.Startup.{State}
use trade_republic_bridge.Registry.{Instance, Registry, lookup, insert}
use trade_republic_bridge.Registry.Lookup.{lookup-insert_same}
use trade_republic_bridge.Web.Handlers.{answers}
use trade_republic_bridge.Web.Routes.{Payload, timeline}
use trade_republic_bridge.Web.Table.{Endpoint}
use trade_republic_bridge.Service.Requests.{on_instance_known}
use trade_republic_bridge.Service.Requests.Timeline.{request_timeline}
use trade_republic_bridge.App.{Platform, Request, call, reply, respond}
use trade_republic_bridge.App.Login.{Addresses, respond_addressed}

module _ (host : Platform) where
  open host use {pytr, local, Events, Body, Rendered}
  open pytr use {World, Api}

  call_timeline :
      (name : String) (request : Request Body) (state : State Api) (w v : World)
      (payload : Payload Events) (reg : Registry Api)
      → request_timeline pytr local Events host.iso host.validate request.now request.since
          request.until name state.registry w
        ≡ (returns payload, reg, v)
      → call host Endpoint.get_instance_timeline name request (state, w)
        ≡ (answers (host.render payload), (record state { registry = reg }, v))
  unfolding call
  call_timeline name request state w v payload reg e = rw e refl

  -- What the route does where pytr gives the events: it renders them, and nothing else changes.
  request_answers :
      (now : ℕ) (start stop : Option String) (name : String) (state : State Api) (w v : World)
      (inst : Instance Api) {a : Api} (since until : DateTime) (since_utc until_utc : String)
      (events : List pytr.Event) (valid : Events)
      → lookup name state.registry ≡ some inst
      → inst.session.state ≡ SessionState.confirmed
      → Has pytr inst.client a
      → parse_window host.iso now start stop ≡ ok (since, until)
      → Fetched pytr inst.client a since until w v events
      → to_utc_iso host.iso since ≡ ok since_utc
      → to_utc_iso host.iso until ≡ ok until_utc
      → host.validate events ≡ ok valid
      → request_timeline pytr local Events host.iso host.validate now start stop name state.registry
          w
        ≡ (
          returns (timeline name since_utc until_utc (length events) valid),
          insert name inst state.registry,
          v,
        )
  unfolding request_timeline
  request_answers now start stop name state w v inst since until since_utc until_utc events valid
        known confirmed h window run first second passed =
      rw
        (
          window,
          on_instance_known pytr local Events _ _ name state.registry w known,
          timeline_confirmed (pytr_port pytr local) since until inst.session (inst.client, w)
              confirmed,
          (fetch_timeline_iff pytr inst.client w v since until events h).1 run,
          first,
          second,
          passed,
        )
        refl

  -- A timeline request with the key, for a valid window and a confirmed session of a known instance
  -- whose client has a handle: if pytr refreshes the web session and fetches the events of just that
  -- window, both ends can be printed in UTC and the events pass their validation, then the reply holds
  -- the name, the printed ends, the number of the events and the events as the validation gives them,
  -- and every instance keeps its session and its client.
  pub timeline_replied :
      (state : State Api) (w v : World) (inst : Instance Api) {a : Api} (name : String)
      (request : Request Body) (since until : DateTime) (since_utc until_utc : String)
      (events : List pytr.Event) (valid : Events)
      → lookup name state.registry ≡ some inst
      → inst.session.state ≡ SessionState.confirmed
      → Has pytr inst.client a
      → Addresses host state.config Endpoint.get_instance_timeline name request
      → parse_window host.iso request.now request.since request.until ≡ ok (since, until)
      → Fetched pytr inst.client a since until w v events
      → to_utc_iso host.iso since ≡ ok since_utc
      → to_utc_iso host.iso until ≡ ok until_utc
      → host.validate events ≡ ok valid
      → let (answer, left) = respond host request (state, w) in
        (answer ≡ reply (host.render (timeline name since_utc until_utc (length events) valid)))
        × ((other : String) → lookup other left.0.registry ≡ lookup other state.registry)
        × (left.1 ≡ v)
  timeline_replied state w v inst name request since until since_utc until_utc events valid known
        confirmed h addressed window run first second passed =
      let fetched =
        request_answers request.now request.since request.until name state w v inst since until
          since_utc until_utc events valid known confirmed h window run first second passed in
      let payload = timeline name since_utc until_utc (length events) valid in
      rw
        (respond_addressed host Endpoint.get_instance_timeline name request (state, w)
          (record state { registry = insert name inst state.registry }, v) payload addressed
          (call_timeline name request state w v payload (insert name inst state.registry) fetched))
        (refl, λ other. lookup-insert_same name other inst state.registry known, refl)
