-- ===== src/Web/Routes/Tests.antt =====
-- Requests to a registry of two instances, and the theorems of this directory applied to them.
use trade_republic_bridge.Base.{ℕ, String, ◌≡◌, ◌↔◌, some, none, List, [], ◌∷◌, ok, Result}
use trade_republic_bridge.Domain.{Exc, SessionState}
use trade_republic_bridge.Config.Tests.{main}
use trade_republic_bridge.Session.{init}
use trade_republic_bridge.Window.{DateTime}
use trade_republic_bridge.Window.Tests.{iso}
use trade_republic_bridge.Registry.{Instance, Registry}
use trade_republic_bridge.Web.Routes.{Payload, timeline, get_instance_timeline}
use trade_republic_bridge.Web.Routes.Outcomes.{Served, get_instance_timeline_iff}

abbrev instance_of : String → SessionState → Instance ℕ
instance_of name state = record {
  session = record (init name 120) { state = state };
  client = record { config = main; session_dir = "/data"; api = none };
}

abbrev registry : Registry ℕ
registry =
    ("main", instance_of "main" SessionState.confirmed)
    ∷ ("second", instance_of "second" SessionState.idle)
    ∷ []

abbrev port : DateTime → DateTime → Result Exc (List String)
port since until = ok ("first" ∷ "last" ∷ [])

-- Every event is as it should be.
abbrev validate : List String → Result Exc (List String)
validate events = ok events

abbrev answer : Payload (List String)
answer = timeline "main" "0001-01-01T11:30:00Z" "0001-01-01T11:30:00Z" 2 ("first" ∷ "last" ∷ [])

get_instance_timeline_iff_example :
    (get_instance_timeline iso 0 port validate "main"
        (some "0001-01-01T12:30+01:00")
        (some "0001-01-01T12:00")
        registry
      ≡ ok answer)
    ↔ Served iso 0 port validate "main"
        (some "0001-01-01T12:30+01:00")
        (some "0001-01-01T12:00")
        registry
        answer
get_instance_timeline_iff_example =
    get_instance_timeline_iff iso 0 port validate "main" (some "0001-01-01T12:30+01:00")
      (some "0001-01-01T12:00") registry answer
