-- ===== src/App/Failures/Tests.antt =====
-- Requests that end as 500 `internal_error`, and the theorems of App/Failures.antt applied to them.
use trade_republic_bridge.Base.{String, List, ◌≡◌, arith, refl, none, some, inl, [], ◌∷◌}
use trade_republic_bridge.Config.Tests.{config}
use trade_republic_bridge.Problem.{problem_response}
use trade_republic_bridge.Window.{as_aware}
use trade_republic_bridge.Window.Utc.{IsOutOfRange}
use trade_republic_bridge.Window.Tests.{noon, edge, wide, read_edge}
use trade_republic_bridge.Pytr.Timeline.{Fetched}
use trade_republic_bridge.Pytr.Tests.{working, working-IsLocal}
use trade_republic_bridge.Registry.{lookup}
use trade_republic_bridge.Web.Handlers.Answers.{internal}
use trade_republic_bridge.Web.Table.{Endpoint, routes}
use trade_republic_bridge.App.{app, Platform, Request, reply, respond}
use trade_republic_bridge.App.Login.{Addresses}
use trade_republic_bridge.App.Login.Tests.{asks}
use trade_republic_bridge.App.Tests.{host_of}
use trade_republic_bridge.App.Timeline.Tests.{confirmed, confirmed_main}
use trade_republic_bridge.App.Failures.{not_ascii_replied, overflow_replied}

abbrev host : Platform
host = record (host_of working working-IsLocal) { iso = wide }

-- The key has a letter that is not ASCII.
abbrev accented : Request String
accented = record {
  http = record { path = "/instances/main/login"; x_api_key = some "clé" };
  method = "POST";
  since = none;
  until = none;
  body = "";
  now = 0;
}

not_ascii_replied_example :
    respond host accented (confirmed, 0) ≡ (reply (problem_response internal), (confirmed, 0))
not_ascii_replied_example =
    not_ascii_replied host accented (confirmed, 0) "/main/login" "clé" refl refl refl

abbrev early : Request String
early = record (asks "GET" "/instances/main/timeline" "") {
  since = some "0001-01-01T00:30+01:00";
  until = some "0001-01-01T12:00";
}

to_early : Addresses host config Endpoint.get_instance_timeline "main" early
unfolding app routes
to_early = record {
  is_comparable = refl;
  is_allowed = ground arith;
  route = _;
  is_found = refl;
  is_for = refl;
}

abbrev fetched : List String
fetched = "event" ∷ "/data/tr_session_main" ∷ []

collected : Fetched working confirmed_main.client 7 edge (as_aware noon) 0 3 fetched
collected = record {
  refreshed = 1;
  opened = 2;
  loop = "/data/tr_session_main";
  refresh = refl;
  timeline = refl;
  ended = refl;
  result = refl;
}

edge-IsOutOfRange : IsOutOfRange edge
edge-IsOutOfRange = (_, refl, inl (omega arith))

overflow_replied_example :
    let (answer, left) = respond host early (confirmed, 0) in
    (answer ≡ reply (problem_response internal))
    × ((other : String) → lookup other left.0.registry ≡ lookup other confirmed.registry)
    × (left.1 ≡ 3)
overflow_replied_example =
    overflow_replied host confirmed 0 3 confirmed_main "main" early edge (as_aware noon) fetched
      refl refl refl to_early read_edge collected (inl edge-IsOutOfRange)
