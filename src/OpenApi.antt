-- ===== src/OpenApi.antt =====
-- tr_bridge/main.py: the schema of the API, which `_custom_openapi` makes from what FastAPI's
-- `get_openapi` gives for the routes.
--
-- A dict whose keys the code names is a record with those keys, an absent one being `none`, and a dict
-- of the others, `rest`, whose values nothing here looks into. `get_openapi` is a parameter; an
-- OpenAPI document always has `paths`.
pub mod Security
mod Tests
use trade_republic_bridge.Base.{String, Option, none, some, List, [], ◌∷◌, map}
use trade_republic_bridge.Registry.{insert, lookup}

abbrev pub Dict : Type 0 → Type 0
Dict V = List (String × V)

-- A security requirement: the names of schemes, each with its scopes.
abbrev pub Requirements : Type 0
Requirements = List (Dict (List String))

pub record SecurityScheme : Type 0 where
  pub type_of : String
  pub place : String
  pub name : String

pub record Components (Json : Type 0) : Type 0 where
  pub security_schemes : Option (Dict SecurityScheme)
  pub rest : Dict Json

pub record Operation (Json : Type 0) : Type 0 where
  pub security : Option Requirements
  pub rest : Dict Json

-- The operations of a path, by method.
abbrev pub PathItem : Type 0 → Type 0
PathItem Json = Dict (Operation Json)

pub record Schema (Json : Type 0) : Type 0 where
  pub components : Option (Components Json)
  pub security : Option Requirements
  pub paths : Dict (PathItem Json)
  pub rest : Dict Json

-- The attributes of the application that are read, and the one that is set.
pub record App (Routes Json : Type 0) : Type 0 where
  pub title : String
  pub version : String
  pub description : String
  pub routes : Routes
  pub openapi_schema : Option (Schema Json)

-- `_SCHEMA_PUBLIC_PATHS`
abbrev schema_public_paths : List String
schema_public_paths = "/health" ∷ []

-- `{"ApiKeyAuth": {"type": "apiKey", "in": "header", "name": "X-API-Key"}}`
abbrev pub security_schemes : Dict SecurityScheme
security_schemes =
    ("ApiKeyAuth", record { type_of = "apiKey"; place = "header"; name = "X-API-Key" }) ∷ []

-- `[{"ApiKeyAuth": []}]`
abbrev pub api_key_required : Requirements
api_key_required = (("ApiKeyAuth", []) ∷ []) ∷ []

module _ {Json : Type 0} where
  -- `schema.setdefault("components", {})["securitySchemes"] = …`
  abbrev with_schemes : Option (Components Json) → Components Json
  with_schemes none = record { security_schemes = some security_schemes; rest = [] }
  with_schemes (some c) = record c { security_schemes = some security_schemes }

  -- `for operation in ….values(): operation["security"] = []`
  abbrev pub opted_out : PathItem Json → PathItem Json
  opted_out = map (λ (method, operation). (method, record operation { security = some [] }))

  -- `for path in _SCHEMA_PUBLIC_PATHS: …`
  pub open_paths : List String → Dict (PathItem Json) → Dict (PathItem Json)
  open_paths [] paths = paths
  open_paths (path ∷ rest) paths = elim (lookup path paths) [
    | none ↦ open_paths rest paths
    | some item ↦ open_paths rest (insert path (opted_out item) paths)
  ]

  -- The schema that is made of what `get_openapi` gave.
  pub secured : Schema Json → Schema Json
  unfolding open_paths
  secured schema = record schema {
    components = some (with_schemes schema.components);
    security = some api_key_required;
    paths = open_paths schema_public_paths schema.paths;
  }

  -- `_custom_openapi`
  pub custom_openapi :
      {Routes : Type 0}
      → (String → String → String → Routes → Schema Json)
      → App Routes Json
      → Schema Json × App Routes Json
  unfolding secured
  custom_openapi get_openapi app = elim app.openapi_schema [
    | some schema ↦ (schema, app)
    | none ↦
        let schema = secured (get_openapi app.title app.version app.description app.routes) in
        (schema, record app { openapi_schema = some schema })
  ]
