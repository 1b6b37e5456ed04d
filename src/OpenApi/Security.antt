-- ===== src/OpenApi/Security.antt =====
-- Which operations of the schema ask for the API key (tr_bridge/main.py: `_custom_openapi`), and that
-- they are the ones that the middleware guards (tr_bridge/adapters/web/handlers.py).
use mathlib.Core.Option
use text.Mathlib.Text.{◌==◌ as str_eq}
use text.Mathlib.TextEquality.{eq_iff}
use trade_republic_bridge.Base.{
  String, ◌≡◌, ◌∙◌, refl, Bool, true, false, not, Option, none, some, [], ◌∷◌, arith, Option-cases,
  inl, inr, ◌⊎◌,
}
use trade_republic_bridge.Text.{◌<>◌}
use trade_republic_bridge.Registry.{lookup}
use trade_republic_bridge.Registry.Lookup.{lookup-insert_self, lookup-insert_other}
use trade_republic_bridge.Web.Auth.{is_public}
use trade_republic_bridge.Web.Auth.Paths.{instances_protected, health_public}
use trade_republic_bridge.OpenApi.{
  Requirements, Operation, PathItem, Schema, App, opted_out, open_paths, secured, custom_openapi,
}

-- An operation with these requirements is called with the key.
abbrev pub asks_key : Requirements → Bool
asks_key [] = false
asks_key _ = true

-- The paths of the routes that the schema shows.
abbrev IsShown : String → Type 0
IsShown path = (path ≡ "/health") ⊎ ((rest : String) × (path ≡ "/instances" <> rest))

not_health : (path : String) → is_public path ≡ false → str_eq "/health" path ≡ false
not_health path e = ground (arith, eq_iff "/health" path, health_public)

module _ {Json : Type 0} where
  -- The operation of a path and a method.
  abbrev pub operation_at : String → String → Schema Json → Option (Operation Json)
  operation_at path method schema = elim (lookup path schema.paths) [
    | none ↦ none
    | some item ↦ lookup method item
  ]

  -- What an operation requires: its own `security`, or the one of the whole schema.
  abbrev pub required : Schema Json → Operation Json → Requirements
  required schema operation = elim operation.security [
    | some own ↦ own
    | none ↦ elim schema.security [ none ↦ [] | some common ↦ common ]
  ]

  lookup-opted_out :
      (method : String) (item : PathItem Json)
      → lookup method (opted_out item)
        ≡ Option.map (λ (o : Operation Json). record o { security = some [] }) (lookup method item)
  lookup-opted_out method [] = refl
  lookup-opted_out method (e ∷ item) = ground (arith, lookup-opted_out method item)

  open_paths-health :
      (schema : Schema Json)
      → lookup "/health" (secured schema).paths
        ≡ Option.map opted_out (lookup "/health" schema.paths)
  unfolding secured open_paths
  open_paths-health schema = elim (Option-cases (lookup "/health" schema.paths)) [
    | inl e ↦ ground (arith, e)
    | inr (item, e) ↦ ground (arith, e, lookup-insert_self "/health" (opted_out item) schema.paths)
  ]

  open_paths-other :
      (schema : Schema Json) (path : String)
      → str_eq "/health" path ≡ false
      → lookup path (secured schema).paths ≡ lookup path schema.paths
  unfolding secured open_paths
  open_paths-other schema path e = elim (Option-cases (lookup "/health" schema.paths)) [
    | inl none_there ↦ ground (arith, none_there)
    | inr (item, there) ↦ ground (
      arith,
      there,
      lookup-insert_other "/health" path (opted_out item) schema.paths,
      eq_iff "/health" path,
    )
  ]

  health_open :
      (schema : Schema Json) (method : String) (o : Operation Json)
      → operation_at "/health" method schema ≡ some o
      → operation_at "/health" method (secured schema) ≡ some (record o { security = some [] })
  health_open schema method o e = elim (Option-cases (lookup "/health" schema.paths)) [
    | inl missing ↦ absurd (ground (arith, missing))
    | inr (item, there) ↦
        ground (arith, there, open_paths-health schema, lookup-opted_out method item)
  ]

  other_kept :
      (schema : Schema Json) (path method : String)
      → str_eq "/health" path ≡ false
      → operation_at path method (secured schema) ≡ operation_at path method schema
  other_kept schema path method e = ground (arith, open_paths-other schema path e)

  -- An operation that `get_openapi` gave for `/health` or for a path under `/instances`, without a
  -- `security` of its own, is in the schema of the service with all that it had, and the schema asks
  -- for the API key on it exactly when the middleware does.
  pub secured_agrees :
      (schema : Schema Json) (path method : String) {o : Operation Json}
      → IsShown path
      → operation_at path method schema ≡ some o
      → o.security ≡ none
      → (shown : Operation Json) × (operation_at path method (secured schema) ≡ some shown)
        × (shown.rest ≡ o.rest)
        × (asks_key (required (secured schema) shown) ≡ not (is_public path))
  unfolding secured
  secured_agrees schema path method {o} (inl health) found plain = (
    record o { security = some [] },
    rw health (health_open schema method o (rw (← health) found)),
    refl,
    rw (health, health_public) refl,
  )
  secured_agrees schema path method {o} (inr (rest, under)) found plain =
      let guarded : is_public path ≡ false = rw under (instances_protected rest) in
      (
        o,
        other_kept schema path method (not_health path guarded) ∙ found,
        refl,
        rw (plain, guarded) refl,
      )

  -- After its first call, whatever that call found, every later call gives the same schema and leaves
  -- the application as it is, also if `get_openapi` would give another schema by then.
  pub custom_openapi_twice :
      {Routes : Type 0} (first later : String → String → String → Routes → Schema Json)
      (app : App Routes Json)
      → custom_openapi later (custom_openapi first app).1 ≡ custom_openapi first app
  unfolding custom_openapi
  custom_openapi_twice first later app = ground arith
