-- ===== src/App/Errors/Tests.antt =====
-- Requests that end as problems, and the theorems of App/Errors.antt and App/Refusals.antt applied to
-- them.
use trade_republic_bridge.Base.{ℕ, ◌≡◌, refl, some, [], ◌∷◌}
use trade_republic_bridge.Config.Tests.{config}
use trade_republic_bridge.Startup.{State}
use trade_republic_bridge.Session.Tests.{asked, asked_state}
use trade_republic_bridge.Pytr.Errors.{fails_code}
use trade_republic_bridge.Pytr.Tests.{
  limited, limited-IsLocal, garbled, garbled-IsLocal, no_json, client,
}
use trade_republic_bridge.Registry.{Instance, lookup}
use trade_republic_bridge.Web.Table.{Endpoint}
use trade_republic_bridge.App.{Platform, respond}
use trade_republic_bridge.App.Login.Tests.{code_request, status_request, to_code, to_status}
use trade_republic_bridge.App.Errors.{IsProblem, unknown_replied}
use trade_republic_bridge.App.Refusals.{rejected_replied}
use trade_republic_bridge.App.Tests.{host_of}

abbrev pub host : Platform
host = host_of limited limited-IsLocal

abbrev empty : State ℕ
empty = record { config = config; registry = [] }

unknown_replied_example :
    let (answer, after) = respond host status_request (empty, 0) in
    IsProblem host answer (404, "instance_not_found") × (after ≡ (empty, 0))
unknown_replied_example =
    unknown_replied host Endpoint.get_instance_status "main" status_request (empty, 0)
      (to_status limited limited-IsLocal) tt refl

-- A code is awaited.
abbrev awaiting : State ℕ
awaiting = record {
  config = config;
  registry = ("main", record { session = asked; client = client }) ∷ [];
}

-- Trade Republic answers the code with something that is no JSON.
abbrev unreadable : Platform
unreadable = host_of garbled garbled-IsLocal

rejected_replied_example :
    let (answer, left) = respond unreadable code_request (awaiting, 0) in
    IsProblem unreadable answer (401, "code_rejected")
    × ((after : Instance ℕ) × (lookup "main" left.0.registry ≡ some after)
        × (after.session ≡ asked))
rejected_replied_example =
    rejected_replied unreadable awaiting 0 1 (record { session = asked; client = client }) "main"
      "1234" no_json code_request refl asked_state refl (fails_code refl) refl
      (to_code garbled garbled-IsLocal) refl
