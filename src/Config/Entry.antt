-- ===== src/Config/Entry.antt =====
-- One entry of `instances`, and what the fields of a configuration have in common
-- (tr_bridge/config.py: `_parse_instance`, `_require_instance_field`, `_validate_instance_name`).
use trade_republic_bridge.Base.{
  ℕ, code, String, Bool, true, false, ◌&&◌, ◌||◌, Option, none, some, [], ◌∷◌, Result, ok, err,
  ◌>>=◌, ◌>>◌, if◌then◌else◌, ◌==◌, leb,
}
use trade_republic_bridge.Text.{is_empty, strip}
use trade_republic_bridge.Domain.{Message, lit, quoted}
use trade_republic_bridge.Config.Yaml.{Value, str, Fields, get}

-- A `ConfigError`, or an exception that the code does not catch.
pub data Fault : Type 0 where
  config_error : Message → Fault
  uncaught : String → Fault

pub record InstanceConfig : Type 0 where
  pub name : String
  pub phone : String
  pub pin : String

abbrev pub option_or : {A : Type 0} → Option A → A → A
option_or none a = a
option_or (some b) _ = b

-- A field that must be a text with something in it; the text is stripped.
abbrev pub text_or : Fault → Value → Result Fault String
text_or fault (str value) = if is_empty (strip value) then err fault else ok (strip value)
text_or fault _ = err fault

abbrev pub blank : String → Message
blank key = lit "Each instance must have a non-empty " ∷ quoted key ∷ lit " field" ∷ []

-- `_require_instance_field`
unfoldable pub require_instance_field : Fields → String → Result Fault String
require_instance_field item key =
    text_or (config_error (blank key)) (option_or (get item key) (str ""))

-- `[a-zA-Z0-9_-]`
abbrev pub is_name_char : ℕ → Bool
is_name_char c =
    (leb b'a' c && leb c b'z')
    || (leb b'A' c && leb c b'Z')
    || (leb b'0' c && leb c b'9')
    || c == b'_'
    || c == b'-'

-- The end of a match: `$` also matches before a line feed that ends the text.
abbrev pub matches_rest : String → Bool
matches_rest String.[] = true
matches_rest (String.◌∷◌ c s) =
    if is_name_char (code c) then matches_rest s else code c == 10 && is_empty s

-- `_INSTANCE_NAME_RE.match(name)`
abbrev pub matches_name : String → Bool
matches_name String.[] = false
matches_name (String.◌∷◌ c s) = is_name_char (code c) && matches_rest s

-- `_validate_instance_name`
unfoldable pub validate_instance_name : String → Result Fault (Unit {0})
validate_instance_name name =
    if matches_name name
    then ok tt
    else err (
        config_error
          (lit "Invalid instance name " ∷ quoted name ∷ lit ": must match ^[a-zA-Z0-9_-]+$" ∷ []))

-- `_parse_instance`
unfoldable pub parse_instance : Fields → Result Fault InstanceConfig
parse_instance item = do
  name ← require_instance_field item "name"
  phone ← require_instance_field item "phone"
  pin ← require_instance_field item "pin"
  validate_instance_name name
  ok (record { name = name; phone = phone; pin = pin })
