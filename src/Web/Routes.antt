-- ===== src/Web/Routes.antt =====
-- tr_bridge/adapters/web/routes.py: the handlers of the routes.
--
-- A handler is given what the state of the application holds: the configuration and the registry. Its
-- result is the payload, before FastAPI renders it; a route that changes a session returns the
-- registry with that session put back. What the port does to the client is in Pytr.antt; here the
-- port is the answers that it gives, and no other request runs before the handler is done.
pub mod Outcomes
mod Tests
use trade_republic_bridge.Base.{ℕ, String, Bool, Option, List, Result, ok, err, ◌>>=◌, length}
use trade_republic_bridge.Domain.{LoginChallenge, state_value, Exc}
use trade_republic_bridge.Config.{Config, instance_names}
use trade_republic_bridge.Session.{Session, Progress, awaits, returns, raises, fetch_timeline}
use trade_republic_bridge.Session.Calls.{start_login, submit_2fa}
use trade_republic_bridge.Window.{DateTime, Iso, parse_window, to_utc_iso}
use trade_republic_bridge.Registry.{Registry, insert, get}

-- The response models of tr_bridge/adapters/web/schemas.py.
pub data Payload (Events : Type 0) : Type 0 where
  redirect : String → Payload Events
  health : String → String → String → String → String → Payload Events
  instances : List String → Payload Events
  status : String → String → Payload Events
  login_state : String → Payload Events
  timeline : String → String → String → ℕ → Events → Payload Events

-- `root`
unfoldable pub root : {Events : Type 0} → Payload Events
root = redirect "/docs"

-- `health`, with the versions that it reads
unfoldable pub get_health : {Events : Type 0} → String → String → String → Payload Events
get_health version pytr python = health "ok" "tr-bridge" version pytr python

-- `get_instances`
unfoldable pub get_instances : {Events : Type 0} → Config → Payload Events
get_instances config = instances (instance_names config)

abbrev pub progress_map : {A B : Type 0} → (A → B) → Progress A → Progress B
progress_map f awaits = awaits
progress_map f (returns a) = returns (f a)
progress_map f (raises e) = raises e

-- The `TimelineResponse` that `get_instance_timeline` builds of the events; `validate` is what
-- pydantic makes of them then.
abbrev pub timeline_response :
    {Event Events : Type 0}
    → Iso
    → (List Event → Result Exc Events)
    → String
    → DateTime
    → DateTime
    → List Event
    → Result Exc (Payload Events)
timeline_response iso validate name since_dt until_dt events = do
  since_utc ← to_utc_iso iso since_dt
  until_utc ← to_utc_iso iso until_dt
  valid ← validate events
  ok (timeline name since_utc until_utc (length events) valid)

module _ {Events Api : Type 0} where
  -- `get_instance_status`
  unfoldable pub get_instance_status : String → Registry Api → Result Exc (Payload Events)
  get_instance_status name registry = do
    inst ← get registry name
    ok (status name (state_value inst.session.state))

  -- A call of the session of an instance, whose result becomes the payload. The session as the call
  -- leaves it stays in the registry, also if the call raises. A call that still waits has no answer.
  on_session :
      {A : Type 0}
      → String
      → Registry Api
      → (Session → Progress A × Session)
      → (A → Session → Payload Events)
      → Progress (Payload Events) × Registry Api
  on_session name registry call render = elim (get registry name) [
    | err e ↦ (raises e, registry)
    | ok inst ↦
        let (result, session) = call inst.session in
        (
          progress_map (λ a. render a session) result,
          insert name (record inst { session = session }) registry,
        )
  ]

  -- `post_instance_login`, with the answers of the port
  pub post_instance_login :
      Result Exc Bool
      → Result Exc LoginChallenge
      → String
      → Registry Api
      → Progress (Payload Events) × Registry Api
  unfolding on_session
  post_instance_login resumed challenge name registry =
      on_session name registry (start_login resumed challenge)
        (λ state _. login_state (state_value state))

  -- `post_instance_login_2fa`, with the answer of the port to the code
  pub post_instance_login_2fa :
      (String → Result Exc (Unit {0}))
      → String
      → String
      → Registry Api
      → Progress (Payload Events) × Registry Api
  unfolding on_session
  post_instance_login_2fa answer name code registry =
      on_session name registry (submit_2fa (answer code))
        (λ _ session. login_state (state_value session.state))

  -- `get_instance_timeline`; `port` is the client's `fetch_timeline` for the named instance.
  unfoldable pub get_instance_timeline :
      {Event : Type 0}
      → Iso
      → ℕ
      → (DateTime → DateTime → Result Exc (List Event))
      → (List Event → Result Exc Events)
      → String
      → Option String
      → Option String
      → Registry Api
      → Result Exc (Payload Events)
  get_instance_timeline iso now port validate name since until registry = do
    (since_dt, until_dt) ← parse_window iso now since until
    inst ← get registry name
    events ← fetch_timeline inst.session (port since_dt until_dt)
    timeline_response iso validate name since_dt until_dt events
