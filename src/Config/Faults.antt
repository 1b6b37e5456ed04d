-- ===== src/Config/Faults.antt =====
-- The code of tr_bridge/config.py fails with `ConfigError` alone.
use trade_republic_bridge.Base.{
  pos, ℕ, suc, String, ◌≡◌, ◌≢◌, Option, some, List, [], ◌∷◌, ok, err, arith, Result-cases, inl,
  inr,
}
use trade_republic_bridge.Domain.{Message}
use trade_republic_bridge.Config.{
  unreadable, yaml_raised, Env, require_str, check_mappings, parse_items, names, check_duplicates,
  parse_instances, parse_entries, parse_listed, parse_tfa_timeout, from_file, read_yaml,
  chosen_path, timeout_or, top_level,
}
use trade_republic_bridge.Config.Entry.{
  config_error, uncaught, require_instance_field, validate_instance_name, parse_instance, blank,
  option_or, text_or,
}
use trade_republic_bridge.Config.Yaml.{Value, str, int, list, dict, Items, nil, cons, Fields, get}

-- The operating system and the parser raise nothing but `OSError` and `YAMLError`.
pub record IsTame (env : Env) : Type 0 where
  pub resolves : (path name : String) → env.resolve path ≢ err name
  pub reads : (path name : String) → env.read_text path ≢ err (unreadable name)
  pub parses : (text name : String) → env.safe_load text ≢ err (yaml_raised name)

text_or-caught :
    (v : Value) (m : Message) (name : String) → text_or (config_error m) v ≢ err (uncaught name)
text_or-caught (str t) m name = ground arith
text_or-caught _ m name = λ e. cc

parse_instance-caught : (item : Fields) (name : String) → parse_instance item ≢ err (uncaught name)
unfolding parse_instance require_instance_field validate_instance_name
parse_instance-caught item name = ground (
  arith,
  text_or-caught (option_or (get item "name") (str "")) (blank "name") name,
  text_or-caught (option_or (get item "phone") (str "")) (blank "phone") name,
  text_or-caught (option_or (get item "pin") (str "")) (blank "pin") name,
)

-- Once every entry is known to be a mapping, the entries are parsed without another exception.
parse_items-caught :
    (i : ℕ) (items : Items) (name : String)
    → check_mappings i items ≡ ok tt
    → parse_items items ≢ err (uncaught name)
unfolding check_mappings parse_items
parse_items-caught i nil name h e = cc
parse_items-caught i (cons (dict item) items) name h e =
    ground (arith, parse_instance-caught item name, parse_items-caught (suc i) items name h)
parse_items-caught i (cons _ items) name h e = cc

check_mappings-caught :
    (i : ℕ) (items : Items) (name : String) → check_mappings i items ≢ err (uncaught name)
unfolding check_mappings
check_mappings-caught i nil name e = cc
check_mappings-caught i (cons (dict item) items) name e = check_mappings-caught (suc i) items name e
check_mappings-caught i (cons _ items) name e = cc

check_duplicates-caught :
    (seen xs : List String) (name : String) → check_duplicates seen xs ≢ err (uncaught name)
unfolding check_duplicates
check_duplicates-caught seen [] name e = cc
check_duplicates-caught seen (x ∷ xs) name e =
    ground (arith, check_duplicates-caught (x ∷ seen) xs name)

parse_entries-caught : (items : Items) (name : String) → parse_entries items ≢ err (uncaught name)
unfolding parse_entries
parse_entries-caught items name e = elim (Result-cases (check_mappings 0 items)) [
  | inl (tt, mapped) ↦ elim (Result-cases (parse_items items)) [
    | inl (is, parsed) ↦ ground (arith, check_duplicates-caught [] (names is) name)
    | inr (x, bad) ↦ ground (arith, parse_items-caught 0 items name mapped)
  ]
  | inr (x, bad) ↦ ground (arith, check_mappings-caught 0 items name)
]

parse_listed-caught : (v : Option Value) (name : String) → parse_listed v ≢ err (uncaught name)
unfolding parse_listed
parse_listed-caught (some (list (cons item items))) name =
    parse_entries-caught (cons item items) name
parse_listed-caught _ name = λ e. cc

timeout_or-caught : (v : Value) (name : String) → timeout_or v ≢ err (uncaught name)
timeout_or-caught (int (pos (suc n))) name = λ e. cc
timeout_or-caught _ name = λ e. cc

top_level-caught : (v : Value) (name : String) → top_level v ≢ err (uncaught name)
top_level-caught (dict fields) name = λ e. cc
top_level-caught _ name = λ e. cc

read_yaml-caught :
    (env : Env) (path name : String) → IsTame env → read_yaml env path ≢ err (uncaught name)
unfolding read_yaml
read_yaml-caught env path name t e = elim (Result-cases (env.read_text path)) [
  | inl (text, r) ↦ elim (Result-cases (env.safe_load text)) [
    | inl (v, l) ↦ top_level-caught v name (ground arith)
    | inr (x, bad) ↦ ground (arith, t.parses text name)
  ]
  | inr (x, bad) ↦ ground (arith, t.reads path name)
]

require_str-caught : (raw : Fields) (key name : String) → require_str raw key ≢ err (uncaught name)
unfolding require_str
require_str-caught raw key name = text_or-caught _ _ name

parse_instances-caught : (raw : Fields) (name : String) → parse_instances raw ≢ err (uncaught name)
unfolding parse_instances
parse_instances-caught raw name = parse_listed-caught (get raw "instances") name

parse_tfa_timeout-caught :
    (raw : Fields) (name : String) → parse_tfa_timeout raw ≢ err (uncaught name)
unfolding parse_tfa_timeout
parse_tfa_timeout-caught raw name = timeout_or-caught _ name

-- If the operating system and the parser raise nothing but `OSError` and `YAMLError`, `from_file`
-- raises nothing but `ConfigError`: it returns a configuration or fails with a message.
from_file-caught :
    (env : Env) (path : Option String) (name : String)
    → IsTame env
    → from_file env path ≢ err (uncaught name)
unfolding from_file
from_file-caught env path name t e = elim (Result-cases (env.resolve (chosen_path env path))) [
  | inl (resolved, found) ↦ elim (Result-cases (read_yaml env resolved)) [
    | inl (raw, loaded) ↦ ground (
      arith,
      require_str-caught raw "api_key" name,
      parse_instances-caught raw name,
      parse_tfa_timeout-caught raw name,
    )
    | inr (x, bad) ↦ ground (arith, read_yaml-caught env resolved name t)
  ]
  | inr (x, bad) ↦ t.resolves (chosen_path env path) x bad
]
