-- ===== src/Web/Schemas/Tests.antt =====
-- Timeline events, and the theorems of this directory applied to them.
use trade_republic_bridge.Base.{String, ◌≡◌, refl, some, List, [], ◌∷◌, map, ok, err}
use trade_republic_bridge.Domain.{foreign}
use trade_republic_bridge.Problem.{problem_response}
use trade_republic_bridge.Web.Handlers.{of_exc, handle}
use trade_republic_bridge.Web.Handlers.Answers.{internal}
use trade_republic_bridge.Web.Handlers.Tests.{starlette, phrase}
use trade_republic_bridge.Web.Schemas.{Pairwise, validation_error, validate_events}
use trade_republic_bridge.Web.Schemas.Events.{
  IsEvent, is_text, no_text, null_text, some_text, some_int, some_amount, IsSame, events_echoed,
}
use trade_republic_bridge.Web.Schemas.Faults.{no_id, dict_title, event_refused}
use trade_republic_bridge.Web.Schemas.Sample.{
  Json, letters, number, null, array, object, entries, items, sample, sample-IsPydantic,
}

abbrev Dict : Type 0
Dict = List (String × Json)

abbrev amount : Dict
amount = ("value", number 12) ∷ ("currency", letters "EUR") ∷ ("fractionDigits", number 2) ∷ []

abbrev event : Dict
event =
    ("details", array (items []))
    ∷ ("id", letters "e1")
    ∷ ("timestamp", letters "2025-01-01T12:00:00Z")
    ∷ ("amount", object (entries amount))
    ∷ ("title", null)
    ∷ []

event-IsEvent : IsEvent sample event
event-IsEvent = record {
  id = is_text "e1";
  timestamp = is_text "2025-01-01T12:00:00Z";
  source = no_text;
  title = null_text;
  subtitle = no_text;
  amount = some_amount amount (some_int (number 12) refl) (some_text "EUR");
  event_type = no_text;
  status = no_text;
}

events_echoed_example :
    (outs : List Dict) × (validate_events sample (event ∷ [])
      ≡ ok (sample.array (map sample.object outs)))
    × Pairwise (IsSame sample) (event ∷ []) outs
events_echoed_example = events_echoed sample sample-IsPydantic (event ∷ []) (event-IsEvent, tt)

-- An event without an `id`, after one that is as it should be.
abbrev nameless : Dict
nameless = ("timestamp", letters "2025-01-01T12:00:00Z") ∷ []

abbrev both : List Dict
both = event ∷ nameless ∷ []

event_refused_example :
    (validate_events sample both
      ≡ err (foreign (validation_error sample (sample.array (map sample.object both)))))
    × (handle {A = String} starlette phrase
          (of_exc (foreign (validation_error sample (sample.array (map sample.object both)))))
        ≡ some (problem_response internal))
event_refused_example =
    event_refused sample sample-IsPydantic starlette phrase (event ∷ []) [] nameless (no_id refl)

-- The title of an event is a dict.
abbrev titled : Dict
titled =
    ("id", letters "e1")
    ∷ ("timestamp", letters "2025-01-01T12:00:00Z")
    ∷ ("title", object (entries []))
    ∷ []

titled_refused :
    validate_events sample (titled ∷ [])
    ≡ err (foreign (validation_error sample (sample.array (map sample.object (titled ∷ [])))))
titled_refused =
    (event_refused sample sample-IsPydantic starlette phrase [] [] titled (dict_title [] refl)).0
