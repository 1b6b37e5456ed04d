-- ===== src/Config/Unread.antt =====
-- Files that hold no mapping, with the fault of each (tr_bridge/config.py: `_read_yaml`).
use trade_republic_bridge.Base.{
  String, ◌≡◌, subst, false, Option, refl, [], ◌∷◌, ok, err, arith, Result-cases, inl, inr,
}
use trade_republic_bridge.Domain.{lit, quoted, shown}
use trade_republic_bridge.Config.{
  Env, os_error, unreadable, yaml_error, yaml_raised, read_yaml, top_level, chosen_path, from_file,
}
use trade_republic_bridge.Config.Entry.{Fault, config_error, uncaught}
use trade_republic_bridge.Config.Yaml.{Value, dict, type_name}
use trade_republic_bridge.Config.Mappings.{is_dict}

abbrev not_top : Value → Fault
not_top v =
    config_error
      (lit "Config file must be a YAML mapping at the top level; got: " ∷ shown (type_name v) ∷ [])

-- The file at `path` holds no mapping, with the fault that is reported.
pub data FileFault (env : Env) (path : Option String) : Fault → Type 0 where
  unresolved :
      (name : String)
      → env.resolve (chosen_path env path) ≡ err name
      → FileFault env path (uncaught name)
  missing :
      (resolved : String)
      → env.resolve (chosen_path env path) ≡ ok resolved
      → env.read_text resolved ≡ err os_error
      → FileFault env path (config_error (lit "Config file not found: " ∷ quoted resolved ∷ []))
  undecodable :
      (resolved name : String)
      → env.resolve (chosen_path env path) ≡ ok resolved
      → env.read_text resolved ≡ err (unreadable name)
      → FileFault env path (uncaught name)
  no_yaml :
      (resolved text e : String)
      → env.resolve (chosen_path env path) ≡ ok resolved
      → env.read_text resolved ≡ ok text
      → env.safe_load text ≡ err (yaml_error e)
      → FileFault env path (config_error (lit "Invalid YAML in config file: " ∷ shown e ∷ []))
  not_loaded :
      (resolved text name : String)
      → env.resolve (chosen_path env path) ≡ ok resolved
      → env.read_text resolved ≡ ok text
      → env.safe_load text ≡ err (yaml_raised name)
      → FileFault env path (uncaught name)
  no_dict :
      (resolved text : String) (v : Value)
      → env.resolve (chosen_path env path) ≡ ok resolved
      → env.read_text resolved ≡ ok text
      → env.safe_load text ≡ ok v
      → is_dict v ≡ false
      → FileFault env path (not_top v)

top_level_fault :
    (v : Value) {f : Fault} → top_level v ≡ err f → (is_dict v ≡ false) × (not_top v ≡ f)
top_level_fault (dict fields) e = cc
top_level_fault _ e = (refl, cc)

top_level_from : (v : Value) → is_dict v ≡ false → top_level v ≡ err (not_top v)
top_level_from (dict fields) h = cc
top_level_from _ h = refl

FileFault-same :
    {env : Env} {path : Option String} {f g : Fault}
    → FileFault env path g
    → g ≡ f
    → FileFault env path f
FileFault-same {env} {path} h same = subst (FileFault env path) same h

pub read_yaml-FileFault :
    (env : Env) (path : Option String) (resolved : String) {f : Fault}
    → env.resolve (chosen_path env path) ≡ ok resolved
    → read_yaml env resolved ≡ err f
    → FileFault env path f
unfolding read_yaml
read_yaml-FileFault env path resolved {f} found e = elim (Result-cases (env.read_text resolved)) [
  | inr (os_error, bad) ↦ FileFault-same (missing resolved found bad) (ground arith)
  | inr (unreadable name, bad) ↦ FileFault-same (undecodable resolved name found bad) (ground arith)
  | inl (text, r) ↦ elim (Result-cases (env.safe_load text)) [
    | inr (yaml_error x, bad) ↦ FileFault-same (no_yaml resolved text x found r bad) (ground arith)
    | inr (yaml_raised name, bad) ↦
        FileFault-same (not_loaded resolved text name found r bad) (ground arith)
    | inl (v, l) ↦
        let (flat, same) = top_level_fault v (ground arith) in
        FileFault-same (no_dict resolved text v found r l flat) same
  ]
]

pub FileFault-from :
    (env : Env) (path : Option String) {f : Fault}
    → FileFault env path f
    → from_file env path ≡ err f
unfolding from_file read_yaml
FileFault-from env path (unresolved name h) = ground arith
FileFault-from env path (missing resolved found h) = ground arith
FileFault-from env path (undecodable resolved name found h) = ground arith
FileFault-from env path (no_yaml resolved text e found r h) = ground arith
FileFault-from env path (not_loaded resolved text name found r h) = ground arith
FileFault-from env path (no_dict resolved text v found r l h) = ground (arith, top_level_from v h)
