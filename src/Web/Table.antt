-- ===== src/Web/Table.antt =====
-- tr_bridge/adapters/web/routes.py: the routes that `register_routes` registers.
use trade_republic_bridge.Base.{String, Bool, true, false, Option, none, some, List, [], ◌∷◌}
use trade_republic_bridge.Text.{◌<>◌}
use trade_republic_bridge.Web.Routes.{Payload}
use trade_republic_bridge.Web.Schemas.{
  Model, health_response, instances_response, status_response, login_state_response,
  timeline_response,
}

-- The path of a route: a fixed one, or one with `{name}` between two texts.
pub data Template : Type 0 where
  fixed : String → Template
  named : String → String → Template

-- The path of a template, with a text for `{name}`.
abbrev pub fill : Template → String → String
fill (fixed path) name = path
fill (named before after) name = before <> name <> after

-- The functions that `register_routes` decorates.
pub data Endpoint : Type 0 where
  root : Endpoint
  health : Endpoint
  get_instances : Endpoint
  get_instance_status : Endpoint
  post_instance_login : Endpoint
  post_instance_login_2fa : Endpoint
  get_instance_timeline : Endpoint

pub record Route : Type 0 where
  pub method : String
  pub path : Template
  pub include_in_schema : Bool
  pub response_model_exclude_unset : Bool
  pub endpoint : Endpoint

-- `@app.get(path)` and `@app.post(path)`
abbrev decorated : String → Template → Endpoint → Route
decorated method path endpoint = record {
  method = method;
  path = path;
  include_in_schema = true;
  response_model_exclude_unset = false;
  endpoint = endpoint;
}

-- `register_routes`, in the order of the registrations
unfoldable pub routes : List Route
routes =
    record (decorated "GET" (fixed "/") Endpoint.root) { include_in_schema = false }
    ∷ decorated "GET" (fixed "/health") Endpoint.health
    ∷ decorated "GET" (fixed "/instances") Endpoint.get_instances
    ∷ decorated "GET" (named "/instances/" "/status") Endpoint.get_instance_status
    ∷ decorated "POST" (named "/instances/" "/login") Endpoint.post_instance_login
    ∷ decorated "POST" (named "/instances/" "/login/2fa") Endpoint.post_instance_login_2fa
    ∷ record (decorated "GET" (named "/instances/" "/timeline") Endpoint.get_instance_timeline) {
      response_model_exclude_unset = true;
    }
    ∷ []

-- The response model that the annotation of a handler names; `root` has a response of its own.
abbrev pub response_model : Endpoint → Option Model
response_model Endpoint.root = none
response_model Endpoint.health = some health_response
response_model Endpoint.get_instances = some instances_response
response_model Endpoint.get_instance_status = some status_response
response_model Endpoint.post_instance_login = some login_state_response
response_model Endpoint.post_instance_login_2fa = some login_state_response
response_model Endpoint.get_instance_timeline = some timeline_response

-- The response model that a payload is of.
abbrev pub model_of : {Events : Type 0} → Payload Events → Option Model
model_of (Payload.redirect _) = none
model_of (Payload.health _ _ _ _ _) = some health_response
model_of (Payload.instances _) = some instances_response
model_of (Payload.status _ _) = some status_response
model_of (Payload.login_state _) = some login_state_response
model_of (Payload.timeline _ _ _ _ _) = some timeline_response
