-- ===== src/OpenApi/Tests.antt =====
-- A schema with two operations, and the theorems of this directory applied to it.
use trade_republic_bridge.Base.{String, ◌≡◌, refl, not, none, some, [], ◌∷◌, inl, inr}
use trade_republic_bridge.Web.Auth.{is_public}
use trade_republic_bridge.OpenApi.{
  Operation, Schema, App, secured, open_paths, custom_openapi, api_key_required, security_schemes,
}
use trade_republic_bridge.OpenApi.Security.{operation_at, required, asks_key, secured_agrees}

abbrev operation : Operation String
operation = record { security = none; rest = ("tags", "ops") ∷ [] }

-- What `get_openapi` gives.
abbrev plain : Schema String
plain = record {
  components = none;
  security = none;
  paths = ("/health", ("get", operation) ∷ []) ∷ ("/instances", ("get", operation) ∷ []) ∷ [];
  rest = [];
}

abbrev app : App String String
app = record {
  title = "tr-bridge";
  version = "1.0.0";
  description = "";
  routes = "";
  openapi_schema = none;
}

secured_agrees_example :
    (shown : Operation String) × (operation_at "/instances" "get" (secured plain) ≡ some shown)
    × (shown.rest ≡ operation.rest)
    × (asks_key (required (secured plain) shown) ≡ not (is_public "/instances"))
secured_agrees_example = secured_agrees plain "/instances" "get" (inr ("", refl)) refl refl

secured_agrees_health :
    (shown : Operation String) × (operation_at "/health" "get" (secured plain) ≡ some shown)
    × (shown.rest ≡ operation.rest)
    × (asks_key (required (secured plain) shown) ≡ not (is_public "/health"))
secured_agrees_health = secured_agrees plain "/health" "get" (inl refl) refl refl

-- The whole result for this application.
secured_plain : (custom_openapi (λ _ _ _ _. plain) app).0 ≡ record {
  components = some (record { security_schemes = some security_schemes; rest = [] });
  security = some api_key_required;
  paths =
      ("/health", ("get", record operation { security = some [] }) ∷ [])
      ∷ ("/instances", ("get", operation) ∷ [])
      ∷ [];
  rest = [];
}
unfolding custom_openapi secured open_paths
secured_plain = refl
