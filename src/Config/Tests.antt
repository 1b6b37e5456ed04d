-- ===== src/Config/Tests.antt =====
-- A configuration file that is accepted, and the theorems of this directory applied to it.
use trade_republic_bridge.Base.{String, ◌≡◌, refl, ◌↔◌, true, false, none, [], ◌∷◌, ok, err, pos}
use trade_republic_bridge.Text.{has_char, ◌<>◌, strip, is_space}
use trade_republic_bridge.Config.{
  Env, Config, contains, check_duplicates, from_file, instance_names, session_dir, parent,
  read_yaml, require_str, parse_instances, check_mappings, parse_items, parse_tfa_timeout,
  parse_listed, parse_entries, resolve_config_path,
}
use trade_republic_bridge.Config.Entry.{
  InstanceConfig, parse_instance, require_instance_field, validate_instance_name,
}
use trade_republic_bridge.Config.Yaml.{Value, str, int, list, dict, nil, cons, done, field}
use trade_republic_bridge.Config.Repeats.{duplicate}
use trade_republic_bridge.Config.Explained.{Explains, from_file_fault_iff}
use trade_republic_bridge.Config.Files.{Describes, from_file_iff}
use trade_republic_bridge.Config.Valid.{IsConfig, from_file-IsConfig}
use trade_republic_bridge.Config.Sessions.{session_dir-contained}

abbrev entry : String → String → Value
entry name pin = dict (
    field (str "name") (str name)
      (field (str "phone") (str "+491") (field (str "pin") (str pin) done)))

abbrev document : Value
document = dict (
    field (str "api_key") (str " secret ") (
      field (str "instances") (list (cons (entry "main" "1234") (cons (entry "second" "9876") nil)))
        (field (str "tfa_timeout") (int (pos 60)) done)))

-- One file stands at every path, with this content.
abbrev pub env : Env
env = record {
  getenv = λ _. none;
  resolve = λ path. ok path;
  read_text = λ _. ok "";
  safe_load = λ _. ok document;
}

abbrev pub main : InstanceConfig
main = record { name = "main"; phone = "+491"; pin = "1234" }

abbrev pub second : InstanceConfig
second = record { name = "second"; phone = "+491"; pin = "9876" }

abbrev pub config : Config
config = record {
  api_key = "secret";
  instances = main ∷ second ∷ [];
  tfa_timeout = 60;
  data_root = "/data";
}

pub loaded : from_file env none ≡ ok config
unfolding from_file resolve_config_path read_yaml require_str parse_instances parse_listed
    parse_entries parse_instance require_instance_field validate_instance_name check_mappings
    parse_items check_duplicates parse_tfa_timeout parent strip is_space
loaded = refl

config-IsConfig : IsConfig config
config-IsConfig = (from_file-IsConfig env none loaded).0

from_file_iff_example : (from_file env none ≡ ok config) ↔ Describes env none config
from_file_iff_example = from_file_iff env none config

main_dir : session_dir config "main" ≡ ok "/data/tr_session_main"
unfolding session_dir
main_dir = refl

session_dir-contained_example :
    ("/data/tr_session_main" ≡ "/data" <> "/tr_session_" <> "main")
    × (contains "main" (instance_names config) ≡ true)
    × (has_char b'/' "main" ≡ false)
    × (has_char b'.' "main" ≡ false)
session_dir-contained_example = session_dir-contained config "main" config-IsConfig main_dir

-- Two entries with one name.
abbrev twice : Env
twice = record env {
  safe_load = λ text. ok (
      dict (
        field (str "api_key") (str "secret") (
          field (str "instances")
            (list (cons (entry "main" "1234") (cons (entry "main" "9876") nil))) done)));
}

from_file_fault_iff_example :
    (from_file twice none ≡ err (duplicate "main")) ↔ Explains twice none (duplicate "main")
from_file_fault_iff_example = from_file_fault_iff twice none (duplicate "main")

refused : from_file twice none ≡ err (duplicate "main")
unfolding from_file resolve_config_path read_yaml require_str parse_instances parse_listed
    parse_entries parse_instance require_instance_field validate_instance_name check_mappings
    parse_items check_duplicates parse_tfa_timeout parent strip is_space
refused = refl
