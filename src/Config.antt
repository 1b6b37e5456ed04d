-- ===== src/Config.antt =====
-- tr_bridge/config.py: reading and validating the configuration.
--
-- The operating system and the YAML parser are an `Env`: environment variables, the resolution of a
-- path, the text of a file, and `yaml.safe_load`.
pub mod Yaml
pub mod Entry
pub mod Names
pub mod Instance
pub mod Valid
pub mod Faults
pub mod Accepts
pub mod Files
pub mod Mappings
pub mod Repeats
pub mod Reasons
pub mod Listing
pub mod Unread
pub mod Explained
pub mod Sessions
pub mod Tests
use text.Mathlib.Text.{◌==◌ as str_eq}
use trade_republic_bridge.Base.{
  pos, ℕ, suc, String, Bool, false, not, ◌||◌, Option, none, some, List, [], ◌∷◌, map, Result, ok,
  err, ◌>>=◌, ◌>>◌, if◌then◌else◌, ◌==◌,
}
use trade_republic_bridge.Text.{is_empty, rstrip, ◌<>◌}
use trade_republic_bridge.Domain.{lit, shown, quoted, number}
use Yaml.{Value, str, int, list, dict, Items, nil, cons, Fields, get, type_name}
use Entry.{Fault, config_error, uncaught, InstanceConfig, option_or, text_or, parse_instance}

-- An `OSError`, or any other exception of `read_text` (a file that is no UTF-8).
pub data ReadFault : Type 0 where
  os_error : ReadFault
  unreadable : String → ReadFault

-- A `yaml.YAMLError`, with its text, or any other exception of `safe_load`.
pub data YamlFault : Type 0 where
  yaml_error : String → YamlFault
  yaml_raised : String → YamlFault

pub record Env : Type 0 where
  pub getenv : String → Option String
  -- `str(Path(path).expanduser().resolve())`; the error is the name of the exception.
  pub resolve : String → Result String String
  pub read_text : String → Result ReadFault String
  pub safe_load : String → Result YamlFault Value

-- `_DEFAULT_TFA_TIMEOUT`
abbrev pub default_tfa_timeout : ℕ
default_tfa_timeout = 120

pub record Config : Type 0 where
  pub api_key : String
  pub instances : List InstanceConfig
  pub tfa_timeout : ℕ
  pub data_root : String

-- `_resolve_config_path`
pub resolve_config_path : Env → String
resolve_config_path env = option_or (env.getenv "TR_CONFIG_PATH") "/data/config.yml"

abbrev top_level : Value → Result Fault Fields
top_level (dict fields) = ok fields
top_level value = err (
    config_error (
      lit "Config file must be a YAML mapping at the top level; got: "
      ∷ shown (type_name value)
      ∷ []))

-- `_read_yaml`
pub read_yaml : Env → String → Result Fault Fields
read_yaml env path = elim (env.read_text path) [
  | err os_error ↦ err (config_error (lit "Config file not found: " ∷ quoted path ∷ []))
  | err (unreadable name) ↦ err (uncaught name)
  | ok text ↦ elim (env.safe_load text) [
    | err (yaml_error e) ↦ err (config_error (lit "Invalid YAML in config file: " ∷ shown e ∷ []))
    | err (yaml_raised name) ↦ err (uncaught name)
    | ok value ↦ top_level value
  ]
]

-- `_require_str`
pub require_str : Fields → String → Result Fault String
require_str raw key =
    text_or
      (config_error
        (lit "Config field " ∷ quoted key ∷ lit " is required and must be a non-empty string" ∷ []))
      (option_or (get raw key) (str ""))

-- The loop that checks every entry before any is parsed.
pub check_mappings : ℕ → Items → Result Fault (Unit {0})
check_mappings i nil = ok tt
check_mappings i (cons (dict _) items) = check_mappings (suc i) items
check_mappings i (cons item items) = err (
    config_error (
      lit "Each entry in 'instances' must be a mapping; entry "
      ∷ number i
      ∷ lit " is "
      ∷ shown (type_name item)
      ∷ []))

-- `[cls._parse_instance(item) for item in items]`; only a mapping has `get`.
pub parse_items : Items → Result Fault (List InstanceConfig)
parse_items nil = ok []
parse_items (cons (dict item) items) = do ok ((← parse_instance item) ∷ (← parse_items items))
parse_items (cons _ items) = err (uncaught "AttributeError")

abbrev pub names : List InstanceConfig → List String
names = map (λ i. i.name)

-- `name in names`
abbrev pub contains : String → List String → Bool
contains name [] = false
contains name (x ∷ xs) = str_eq name x || contains name xs

-- The loop over `names` with the set `seen`.
pub check_duplicates : List String → List String → Result Fault (Unit {0})
check_duplicates seen [] = ok tt
check_duplicates seen (name ∷ rest) =
    let later = check_duplicates (name ∷ seen) rest in
    if contains name seen
    then err (config_error (lit "Duplicate instance name: " ∷ quoted name ∷ []))
    else later

abbrev instances_missing : Fault
instances_missing =
    config_error (lit "Config field 'instances' is required and must be a non-empty list" ∷ [])

-- The part of `_parse_instances` behind its first test, on a list that is not empty.
pub parse_entries : Items → Result Fault (List InstanceConfig)
parse_entries items = do
  check_mappings 0 items
  instances ← parse_items items
  check_duplicates [] (names instances)
  ok instances

-- `_parse_instances`, on `raw.get("instances")`
pub parse_listed : Option Value → Result Fault (List InstanceConfig)
parse_listed (some (list (cons item items))) = parse_entries (cons item items)
parse_listed _ = err instances_missing

-- `_parse_instances`
pub parse_instances : Fields → Result Fault (List InstanceConfig)
unfolding parse_listed
parse_instances raw = parse_listed (get raw "instances")

abbrev timeout_or : Value → Result Fault ℕ
timeout_or (int (pos (suc n))) = ok (suc n)
timeout_or _ =
    err (config_error (lit "Config field 'tfa_timeout' must be a positive integer (seconds)" ∷ []))

-- `_parse_tfa_timeout`; a `bool` is refused though it is an `int` of Python.
pub parse_tfa_timeout : Fields → Result Fault ℕ
parse_tfa_timeout raw =
    timeout_or (option_or (get raw "tfa_timeout") (int (pos default_tfa_timeout)))

abbrev is_slash : ℕ → Bool
is_slash c = c == b'/'

abbrev or_root : String → String
or_root s = if is_empty s then "/" else s

-- `str(resolved.parent)` of an absolute path
pub parent : String → String
parent path = or_root (rstrip is_slash (rstrip (λ c. not (is_slash c)) path))

-- `path or _resolve_config_path()`
abbrev chosen_path : Env → Option String → String
chosen_path env none = resolve_config_path env
chosen_path env (some path) = if is_empty path then resolve_config_path env else path

abbrev or_uncaught : {A : Type 0} → Result String A → Result Fault A
or_uncaught (ok a) = ok a
or_uncaught (err name) = err (uncaught name)

-- `Config.from_file`
pub from_file : Env → Option String → Result Fault Config
from_file env path = do
  resolved ← or_uncaught (env.resolve (chosen_path env path))
  raw ← read_yaml env resolved
  api_key ← require_str raw "api_key"
  instances ← parse_instances raw
  tfa_timeout ← parse_tfa_timeout raw
  ok (record {
    api_key = api_key;
    instances = instances;
    tfa_timeout = tfa_timeout;
    data_root = parent resolved;
  })

-- `Config.load`
unfoldable pub load : Env → Result Fault Config
load env = from_file env none

-- `instance_names`
abbrev pub instance_names : Config → List String
instance_names c = names c.instances

-- `session_dir`
unfoldable pub session_dir : Config → String → Result Fault String
session_dir c name =
    if contains name (instance_names c)
    then ok (c.data_root <> "/tr_session_" <> name)
    else err (config_error (lit "Unknown instance name: " ∷ quoted name ∷ []))
