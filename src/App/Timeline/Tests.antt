-- ===== src/App/Timeline/Tests.antt =====
-- Requests for a timeline, and the theorems of App/Timeline.antt applied to them.
use trade_republic_bridge.Base.{ℕ, String, List, ◌≡◌, arith, refl, some, [], ◌∷◌}
use trade_republic_bridge.Domain.{SessionState}
use trade_republic_bridge.Config.Tests.{config}
use trade_republic_bridge.Startup.{State}
use trade_republic_bridge.Session.Tests.{fresh}
use trade_republic_bridge.Window.{as_aware}
use trade_republic_bridge.Window.Tests.{noon, ahead, read_window, printed_window}
use trade_republic_bridge.Pytr.{Pytr}
use trade_republic_bridge.Pytr.Adapter.{IsLocal}
use trade_republic_bridge.Pytr.Timeline.{Fetched}
use trade_republic_bridge.Pytr.Tests.{client, working, working-IsLocal}
use trade_republic_bridge.Registry.{Instance, lookup}
use trade_republic_bridge.Web.Routes.{timeline}
use trade_republic_bridge.Web.Table.{Endpoint, routes}
use trade_republic_bridge.App.{app, Platform, Request, reply, respond}
use trade_republic_bridge.App.Login.{Addresses}
use trade_republic_bridge.App.Login.Tests.{asks}
use trade_republic_bridge.App.Tests.{host_of}
use trade_republic_bridge.App.Timeline.{timeline_replied}

-- From 12:30 at one hour ahead of UTC to noon in UTC.
abbrev timeline_request : Request String
timeline_request = record (asks "GET" "/instances/main/timeline" "") {
  since = some "0001-01-01T12:30+01:00";
  until = some "0001-01-01T12:00";
}

to_timeline :
    (p : Pytr) (local : IsLocal p)
    → Addresses (host_of p local) config Endpoint.get_instance_timeline "main" timeline_request
unfolding app routes
to_timeline p local = record {
  is_comparable = refl;
  is_allowed = ground arith;
  route = _;
  is_found = refl;
  is_for = refl;
}

-- The session of `main` is confirmed.
abbrev pub confirmed_main : Instance ℕ
confirmed_main = record {
  session = record fresh { state = SessionState.confirmed };
  client = client;
}

abbrev pub confirmed : State ℕ
confirmed = record { config = config; registry = ("main", confirmed_main) ∷ [] }

abbrev served : Platform
served = host_of working working-IsLocal

abbrev fetched : List String
fetched = "event" ∷ "/data/tr_session_main" ∷ []

collected : Fetched working client 7 ahead (as_aware noon) 0 3 fetched
collected = record {
  refreshed = 1;
  opened = 2;
  loop = "/data/tr_session_main";
  refresh = refl;
  timeline = refl;
  ended = refl;
  result = refl;
}

timeline_replied_example :
    let (answer, left) = respond served timeline_request (confirmed, 0) in
    (answer
      ≡ reply
          (served.render (timeline "main" "0001-01-01T11:30:00Z" "0001-01-01T11:30:00Z" 2 fetched)))
    × ((other : String) → lookup other left.0.registry ≡ lookup other confirmed.registry)
    × (left.1 ≡ 3)
timeline_replied_example =
    timeline_replied served confirmed 0 3 confirmed_main "main" timeline_request ahead
      (as_aware noon) "0001-01-01T11:30:00Z" "0001-01-01T11:30:00Z" fetched fetched refl refl refl
      (to_timeline working working-IsLocal) read_window collected printed_window.0 printed_window.1
      refl
