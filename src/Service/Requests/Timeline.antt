-- ===== src/Service/Requests/Timeline.antt =====
-- The timeline route (tr_bridge/adapters/web/routes.py: `get_instance_timeline`) over the adapter.
use trade_republic_bridge.Base.{
  ℕ, String, ◌≡◌, refl, Option, some, List, Result, ok, err, ◌>>=◌, Result-cases, inl, inr,
}
use trade_republic_bridge.Domain.{Exc}
use trade_republic_bridge.Session.{Session, Progress, returns, raises}
use trade_republic_bridge.Session.Driven.{timeline}
use trade_republic_bridge.Session.Driven.Laws.{timeline_lem}
use trade_republic_bridge.Window.{DateTime, Iso, parse_window}
use trade_republic_bridge.Pytr.{Pytr, Client, fetch_timeline}
use trade_republic_bridge.Pytr.Adapter.{IsLocal, pytr_port}
use trade_republic_bridge.Registry.{Instance, Registry, lookup}
use trade_republic_bridge.Web.Routes.{
  Payload, progress_map, timeline_response, get_instance_timeline,
}
use trade_republic_bridge.Web.Routes.Outcomes.{get-some}
use trade_republic_bridge.Service.Requests.{Answer, on_instance, on_instance_known}

abbrev pub settled : {A : Type 0} → Result Exc A → Progress A
settled (ok a) = returns a
settled (err e) = raises e

module _ (p : Pytr) (local : IsLocal p) (Events : Type 0) (iso : Iso)
    (validate : List p.Event → Result Exc Events) where
  open p use {World, Api, Event}

  -- What the route makes of the events, after the session's `fetch_timeline`.
  abbrev pub rendered :
      String
      → DateTime
      → DateTime
      → Session
      → Result Exc (List Event) × (Client Api × World)
      → Progress (Payload Events) × Session × (Client Api × World)
  rendered name since until s (events, c) =
      (settled (events >>= timeline_response iso validate name since until), s, c)

  -- The request, once its window is parsed.
  abbrev windowed :
      String → Registry Api → World → Result Exc (DateTime × DateTime) → Answer p local Events
  windowed name reg w (err e) = (raises e, reg, w)
  windowed name reg w (ok (since, until)) =
      on_instance p local Events
        (λ s c. rendered name since until s (timeline (pytr_port p local) since until s c))
        (λ payload _. payload) name reg w

  -- `get_instance_timeline`, whose payload is made at the end of the call
  unfoldable pub request_timeline :
      ℕ → Option String → Option String → String → Registry Api → World → Answer p local Events
  unfolding on_instance
  request_timeline now since until name reg w =
      windowed name reg w (parse_window iso now since until)

  -- The adapter's `fetch_timeline`, as the route's handler takes it.
  abbrev asked : Client Api → World → DateTime → DateTime → Result Exc (List Event)
  asked c w since until = (fetch_timeline p since until c w).0

  kept : {A : Type 0} (r : Result Exc A) → progress_map (λ a. a) (settled r) ≡ settled r
  kept (ok a) = refl
  kept (err e) = refl

  -- For a known name the request is answered as the handler says with the adapter's answer.
  pub request_timeline_lem :
      (now : ℕ) (since until : Option String) (name : String) (reg : Registry Api) (w : World)
      (inst : Instance Api)
      → lookup name reg ≡ some inst
      → (request_timeline now since until name reg w).0
        ≡ settled
            (get_instance_timeline iso now (asked inst.client w) validate name since until reg)
  unfolding request_timeline get_instance_timeline
  request_timeline_lem now since until name reg w inst known =
      elim (Result-cases (parse_window iso now since until)) [
        | inr (x, e) ↦ rw e refl
        | inl ((a, b), e) ↦
            rw
              (
                e,
                on_instance_known p local Events _ _ name reg w known,
                get-some reg name known,
                ← timeline_lem (pytr_port p local) a b inst.session (inst.client, w),
              )
              (kept _)
      ]
