-- ===== src/Config/Files.antt =====
-- Exactly which files make which configuration (tr_bridge/config.py: `Config.from_file`).
use trade_republic_bridge.Base.{
  ℕ, List, String, ◌≡◌, ◌↔◌, Option, ok, arith, Result-cases, inl, inr, ◌∙◌, ap,
}
use trade_republic_bridge.Config.{
  Env, Config, require_str, parse_instances, parse_tfa_timeout, read_yaml, top_level, parent,
  chosen_path, from_file,
}
use trade_republic_bridge.Config.Entry.{InstanceConfig}
use trade_republic_bridge.Config.Yaml.{Value, dict, Fields, get}
use trade_republic_bridge.Config.Valid.{from_file-Loads}
use trade_republic_bridge.Config.Accepts.{
  IsField, IsListing, IsTimeout, IsField-to, IsField-from, parse_listed_to, parse_listed_from,
  IsTimeout-to, IsTimeout-from,
}

-- The file at `path` holds a mapping that describes the configuration `c`.
pub record Describes (env : Env) (path : Option String) (c : Config) : Type 0 where
  pub resolved : String
  pub text : String
  pub raw : Fields
  pub found : env.resolve (chosen_path env path) ≡ ok resolved
  pub readable : env.read_text resolved ≡ ok text
  pub parsed : env.safe_load text ≡ ok (dict raw)
  pub api_key : IsField (get raw "api_key") c.api_key
  pub instances : IsListing (get raw "instances") c.instances
  pub tfa_timeout : IsTimeout (get raw "tfa_timeout") c.tfa_timeout
  pub data_root : c.data_root ≡ parent resolved

top_level_to : (v : Value) {raw : Fields} → top_level v ≡ ok raw → v ≡ dict raw
top_level_to (dict fields) e = ground arith
top_level_to _ e = cc

pub read_yaml_to :
    (env : Env) (path : String) {raw : Fields}
    → read_yaml env path ≡ ok raw
    → (text : String) × (env.read_text path ≡ ok text) × (env.safe_load text ≡ ok (dict raw))
unfolding read_yaml
read_yaml_to env path e = elim (Result-cases (env.read_text path)) [
  | inl (text, r) ↦ elim (Result-cases (env.safe_load text)) [
    | inl (v, l) ↦ (text, r, l ∙ ap ok (top_level_to v (ground arith)))
    | inr (x, bad) ↦ absurd (ground arith)
  ]
  | inr (x, bad) ↦ absurd (ground arith)
]

pub read_yaml_from :
    (env : Env) (path text : String) (raw : Fields)
    → env.read_text path ≡ ok text
    → env.safe_load text ≡ ok (dict raw)
    → read_yaml env path ≡ ok raw
unfolding read_yaml
read_yaml_from env path text raw r l = ground arith

require_str_from :
    (raw : Fields) (key : String) {s : String}
    → IsField (get raw key) s
    → require_str raw key ≡ ok s
unfolding require_str
require_str_from raw key f = IsField-from _ (get raw key) f

parse_instances_from :
    (raw : Fields) (is : List InstanceConfig)
    → IsListing (get raw "instances") is
    → parse_instances raw ≡ ok is
unfolding parse_instances
parse_instances_from raw is h = parse_listed_from (get raw "instances") is h

parse_tfa_timeout_from :
    (raw : Fields) (n : ℕ) → IsTimeout (get raw "tfa_timeout") n → parse_tfa_timeout raw ≡ ok n
unfolding parse_tfa_timeout
parse_tfa_timeout_from raw n h = IsTimeout-from (get raw "tfa_timeout") n h

Describes-loads :
    (env : Env) (path : Option String) (c : Config)
    → Describes env path c
    → from_file env path ≡ ok c
unfolding from_file
Describes-loads env path c d = ground (
  arith,
  d.found,
  read_yaml_from env d.resolved d.text d.raw d.readable d.parsed,
  require_str_from d.raw "api_key" d.api_key,
  parse_instances_from d.raw c.instances d.instances,
  parse_tfa_timeout_from d.raw c.tfa_timeout d.tfa_timeout,
  d.data_root,
)

-- `from_file` returns a configuration exactly when the file at the path resolves, can be read and
-- parsed, and holds a mapping that describes it: an API key that is not blank, a list of at least one
-- mapping, each with a name, phone and pin that are not blank, names that are distinct and of
-- letters, digits, `_` and `-`, and a positive integer as timeout, or none, which stands for 120. The
-- texts are stripped, and the data root is the directory of the resolved file.
pub from_file_iff :
    (env : Env) (path : Option String) (c : Config)
    → (from_file env path ≡ ok c) ↔ Describes env path c
unfolding require_str parse_instances parse_tfa_timeout
from_file_iff env path c = (to, Describes-loads env path c)
  where
    to : from_file env path ≡ ok c → Describes env path c
    to e =
        let l = from_file-Loads env path e in
        let (text, readable, parsed) = read_yaml_to env l.resolved l.loaded in
        record {
          resolved = l.resolved;
          text = text;
          raw = l.raw;
          found = l.found;
          readable = readable;
          parsed = parsed;
          api_key = IsField-to _ _ l.keyed;
          instances = parse_listed_to (get l.raw "instances") c.instances l.listed;
          tfa_timeout = IsTimeout-to (get l.raw "tfa_timeout") c.tfa_timeout l.timed;
          data_root = l.rooted;
        }
