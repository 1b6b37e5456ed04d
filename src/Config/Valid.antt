-- ===== src/Config/Valid.antt =====
-- What an accepted configuration satisfies (tr_bridge/config.py).
use trade_republic_bridge.Base.{
  pos, ℕ, suc, ◌<◌, String, ◌≡◌, ◌≢◌, subst, Option, some, List, [], ◌∷◌, ok, arith, All,
  Result-cases, inl, inr,
}
use trade_republic_bridge.Config.{
  Env, Config, require_str, check_mappings, parse_items, names, check_duplicates, parse_instances,
  parse_entries, parse_listed, parse_tfa_timeout, from_file, read_yaml, parent, chosen_path,
  timeout_or,
}
use trade_republic_bridge.Config.Entry.{InstanceConfig, parse_instance}
use trade_republic_bridge.Config.Instance.{
  IsText, IsInstance, parse_instance-IsInstance, require_str-IsText,
}
use trade_republic_bridge.Config.Names.{IsDistinct, check_duplicates_iff}
use trade_republic_bridge.Config.Yaml.{Value, int, list, dict, Items, nil, cons, Fields, get}

pub record IsConfig (c : Config) : Type 0 where
  pub api_key : IsText c.api_key
  pub instances : All IsInstance c.instances
  pub some_instance : c.instances ≢ []
  pub distinct : IsDistinct (names c.instances)
  pub tfa_timeout : 0 < c.tfa_timeout

parse_items-All :
    (items : Items) {is : List InstanceConfig} → parse_items items ≡ ok is → All IsInstance is
unfolding parse_items
parse_items-All nil {is} e =
    let empty : ◌≡◌ {A = List InstanceConfig} [] is = cc in subst (All IsInstance) empty tt
parse_items-All (cons (dict item) items) {is} e = elim (Result-cases (parse_instance item)) [
  | inl (i, here) ↦ elim (Result-cases (parse_items items)) [
    | inl (rest, later) ↦
        let whole : i ∷ rest ≡ is = cc (rw (here, later) at e) in
        subst (All IsInstance) whole
          (parse_instance-IsInstance item here, parse_items-All items later)
    | inr (x, later) ↦ cc (rw (here, later) at e)
  ]
  | inr (x, here) ↦ cc (rw here at e)
]
parse_items-All (cons _ items) e = cc

-- What an accepted list of instances satisfies.
pub record IsInstances (is : List InstanceConfig) : Type 0 where
  pub each : All IsInstance is
  pub some_instance : is ≢ []
  pub distinct : IsDistinct (names is)

pub parse_entries_parts :
    (items : Items) {is : List InstanceConfig}
    → parse_entries items ≡ ok is
    → (check_mappings 0 items ≡ ok tt)
      × (parse_items items ≡ ok is)
      × (check_duplicates [] (names is) ≡ ok tt)
unfolding parse_entries
parse_entries_parts items e = ground arith

pub parse_items-ne-nil :
    (item : Value) (items : Items) {is : List InstanceConfig}
    → parse_items (cons item items) ≡ ok is
    → is ≢ []
unfolding parse_items
parse_items-ne-nil (dict item) items e = ground arith
parse_items-ne-nil _ items e = cc

parse_listed-IsInstances :
    (v : Option Value) {is : List InstanceConfig} → parse_listed v ≡ ok is → IsInstances is
unfolding parse_listed
parse_listed-IsInstances (some (list (cons item items))) e =
    let (_, parsed, checked) = parse_entries_parts (cons item items) e in
    record {
      each = parse_items-All (cons item items) parsed;
      some_instance = parse_items-ne-nil item items parsed;
      distinct = (check_duplicates_iff _).0 checked;
    }
parse_listed-IsInstances _ e = cc

parse_instances-IsInstances :
    (raw : Fields) {is : List InstanceConfig} → parse_instances raw ≡ ok is → IsInstances is
unfolding parse_instances
parse_instances-IsInstances raw e = parse_listed-IsInstances (get raw "instances") e

timeout_or-pos : (v : Value) {n : ℕ} → timeout_or v ≡ ok n → 0 < n
timeout_or-pos (int (pos (suc m))) e = ground arith
timeout_or-pos _ e = cc

parse_tfa_timeout-pos : (raw : Fields) {n : ℕ} → parse_tfa_timeout raw ≡ ok n → 0 < n
unfolding parse_tfa_timeout
parse_tfa_timeout-pos raw e = timeout_or-pos _ e

-- The calls behind an accepted file.
pub record Loads (env : Env) (path : Option String) (c : Config) : Type 0 where
  pub resolved : String
  pub raw : Fields
  pub found : env.resolve (chosen_path env path) ≡ ok resolved
  pub loaded : read_yaml env resolved ≡ ok raw
  pub keyed : require_str raw "api_key" ≡ ok c.api_key
  pub listed : parse_instances raw ≡ ok c.instances
  pub timed : parse_tfa_timeout raw ≡ ok c.tfa_timeout
  pub rooted : c.data_root ≡ parent resolved

pub from_file-Loads :
    (env : Env) (path : Option String) {c : Config} → from_file env path ≡ ok c → Loads env path c
unfolding from_file
from_file-Loads env path {c} e = elim (Result-cases (env.resolve (chosen_path env path))) [
  | inl (resolved, found) ↦ elim (Result-cases (read_yaml env resolved)) [
    | inl (raw, loaded) ↦ record {
      resolved = resolved;
      raw = raw;
      found = found;
      loaded = loaded;
      keyed = ground arith;
      listed = ground arith;
      timed = ground arith;
      rooted = ground arith;
    }
    | inr (x, bad) ↦ absurd (ground arith)
  ]
  | inr (x, bad) ↦ absurd (ground arith)
]

-- A configuration that `from_file` returns has a non-empty stripped API key, at least one instance,
-- valid instances with distinct names, and a positive timeout; its data root is the directory of the
-- resolved file.
pub from_file-IsConfig :
    (env : Env) (path : Option String) {c : Config}
    → from_file env path ≡ ok c
    → IsConfig c
      × ((resolved : String) × (env.resolve (chosen_path env path) ≡ ok resolved)
          × (c.data_root ≡ parent resolved))
from_file-IsConfig env path {c} e =
    let l = from_file-Loads env path e in
    let is = parse_instances-IsInstances l.raw l.listed in
    (
      record {
        api_key = require_str-IsText l.raw "api_key" l.keyed;
        instances = is.each;
        some_instance = is.some_instance;
        distinct = is.distinct;
        tfa_timeout = parse_tfa_timeout-pos l.raw l.timed;
      },
      (l.resolved, l.found, l.rooted),
    )
