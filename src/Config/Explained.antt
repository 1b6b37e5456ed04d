-- ===== src/Config/Explained.antt =====
-- Which fault a file is refused with (tr_bridge/config.py: `Config.from_file`).
use trade_republic_bridge.Base.{
  ℕ, suc, String, ◌≡◌, ◌↔◌, ap, subst, ◌∙◌, Option, sym, ◌>>=◌, List, [], ◌∷◌, ok, err, arith,
  Result-cases, inl, inr, pos,
}
use trade_republic_bridge.Domain.{lit, quoted}
use trade_republic_bridge.Config.{
  Env, default_tfa_timeout, timeout_or, require_str, parse_instances, parse_tfa_timeout, read_yaml,
  chosen_path, from_file,
}
use trade_republic_bridge.Config.Entry.{
  Fault, config_error, uncaught, InstanceConfig, option_or, text_or,
}
use trade_republic_bridge.Config.Yaml.{Value, str, int, dict, Fields, get}
use trade_republic_bridge.Config.Reasons.{NotField, text_or_fault, text_or_from, text_or_own}
use trade_republic_bridge.Config.Listing.{ListingFault, ListingFault-to, ListingFault-from}
use trade_republic_bridge.Config.Files.{read_yaml_to, read_yaml_from}
use trade_republic_bridge.Config.Unread.{FileFault, unresolved, read_yaml-FileFault, FileFault-from}
use trade_republic_bridge.Config.Accepts.{
  IsField, IsField-to, IsField-from, IsListing, IsTimeout, IsTimeout-to, IsTimeout-from,
  parse_listed_to, parse_listed_from,
}

-- The file at `path` holds the mapping `raw`.
pub record Holds (env : Env) (path : Option String) (raw : Fields) : Type 0 where
  pub resolved : String
  pub text : String
  pub found : env.resolve (chosen_path env path) ≡ ok resolved
  pub readable : env.read_text resolved ≡ ok text
  pub parsed : env.safe_load text ≡ ok (dict raw)

abbrev key_fault : Fault
key_fault = config_error (
    lit "Config field " ∷ quoted "api_key" ∷ lit " is required and must be a non-empty string" ∷ [])

abbrev timeout_fault : Fault
timeout_fault =
    config_error (lit "Config field 'tfa_timeout' must be a positive integer (seconds)" ∷ [])

-- The fault of a file, in the order in which it is looked at: the file itself, the API key, the
-- instances, and the timeout last.
pub data Explains (env : Env) (path : Option String) : Fault → Type 0 where
  bad_file : (f : Fault) → FileFault env path f → Explains env path f
  bad_key :
      (raw : Fields)
      → Holds env path raw
      → NotField (get raw "api_key")
      → Explains env path key_fault
  bad_instances :
      (raw : Fields) (api_key : String) (f : Fault)
      → Holds env path raw
      → IsField (get raw "api_key") api_key
      → ListingFault (get raw "instances") f
      → Explains env path f
  bad_timeout :
      (raw : Fields) (api_key : String) (is : List InstanceConfig)
      → Holds env path raw
      → IsField (get raw "api_key") api_key
      → IsListing (get raw "instances") is
      → ((n : ℕ) → IsTimeout (get raw "tfa_timeout") n → ⊥)
      → Explains env path timeout_fault

timeout_or_own : (v : Value) {f : Fault} → timeout_or v ≡ err f → timeout_fault ≡ f
timeout_or_own (int (pos (suc n))) e = cc
timeout_or_own _ e = cc

Explains-same :
    {env : Env} {path : Option String} {f g : Fault}
    → Explains env path g
    → g ≡ f
    → Explains env path f
Explains-same {env} {path} h same = subst (Explains env path) same h

-- What is wrong with a mapping.
mapping_fault :
    (env : Env) (path : Option String) (raw : Fields) {f : Fault}
    → Holds env path raw
    → (do
      api_key ← require_str raw "api_key"
      instances ← parse_instances raw
      parse_tfa_timeout raw)
      ≡ err f
    → Explains env path f
unfolding require_str parse_instances parse_tfa_timeout
mapping_fault env path raw {f} held e = elim (Result-cases (require_str raw "api_key")) [
  | inr (x, bad) ↦
      let raised : text_or key_fault (option_or (get raw "api_key") (str "")) ≡ err f =
        ground arith in
      Explains-same (bad_key raw held (text_or_fault key_fault _ raised))
        (sym (text_or_own key_fault _ raised))
  | inl (key, k) ↦ elim (Result-cases (parse_instances raw)) [
    | inr (x, bad) ↦
        Explains-same
          (bad_instances raw key x held (IsField-to _ _ k)
            (ListingFault-to (get raw "instances") bad))
          (ground arith)
    | inl (is, listed) ↦
        let late : timeout_or (option_or (get raw "tfa_timeout") (int (pos default_tfa_timeout)))
            ≡ err f =
          ground arith in
        Explains-same
          (bad_timeout raw key is held (IsField-to _ _ k)
            (parse_listed_to (get raw "instances") is listed)
            (λ n good. cc (IsTimeout-from (get raw "tfa_timeout") n good, late)))
          (timeout_or_own _ late)
  ]
]

Explains-to :
    (env : Env) (path : Option String) {f : Fault}
    → from_file env path ≡ err f
    → Explains env path f
unfolding from_file
Explains-to env path {f} e = elim (Result-cases (env.resolve (chosen_path env path))) [
  | inr (name, bad) ↦ Explains-same (bad_file (uncaught name) (unresolved name bad)) (ground arith)
  | inl (resolved, found) ↦ elim (Result-cases (read_yaml env resolved)) [
    | inr (x, bad) ↦
        Explains-same (bad_file x (read_yaml-FileFault env path resolved found bad)) (ground arith)
    | inl (raw, loaded) ↦
        let (text, readable, parsed) = read_yaml_to env resolved loaded in
        mapping_fault env path raw
          (record {
            resolved = resolved;
            text = text;
            found = found;
            readable = readable;
            parsed = parsed;
          })
          (ground arith)
  ]
]

timeout_from :
    (v : Option Value)
    → ((n : ℕ) → IsTimeout v n → ⊥)
    → timeout_or (option_or v (int (pos default_tfa_timeout))) ≡ err timeout_fault
timeout_from v none_fits =
    elim (Result-cases (timeout_or (option_or v (int (pos default_tfa_timeout))))) [
      | inl (n, good) ↦ absurd (none_fits n (IsTimeout-to v n good))
      | inr (f, bad) ↦ bad ∙ ap err (sym (timeout_or_own _ bad))
    ]

Explains-from :
    (env : Env) (path : Option String) {f : Fault}
    → Explains env path f
    → from_file env path ≡ err f
unfolding from_file require_str parse_instances parse_tfa_timeout
Explains-from env path (bad_file f h) = FileFault-from env path h
Explains-from env path (bad_key raw h m) = ground (
  arith,
  h.found,
  read_yaml_from env h.resolved h.text raw h.readable h.parsed,
  text_or_from key_fault (get raw "api_key") m,
)
Explains-from env path (bad_instances raw key f h k l) = ground (
  arith,
  h.found,
  read_yaml_from env h.resolved h.text raw h.readable h.parsed,
  IsField-from key_fault (get raw "api_key") k,
  ListingFault-from (get raw "instances") l,
)
Explains-from env path (bad_timeout raw key is h k l t) = ground (
  arith,
  h.found,
  read_yaml_from env h.resolved h.text raw h.readable h.parsed,
  IsField-from key_fault (get raw "api_key") k,
  parse_listed_from (get raw "instances") is l,
  timeout_from (get raw "tfa_timeout") t,
)

-- `from_file` fails with a fault exactly when `Explains` gives that fault for the file: the first thing
-- wrong with it, in the order file, API key, instances, timeout, is what is reported, of the entries
-- the first that is no mapping, or else the first with a field that is missing or blank or an invalid
-- name, and of the names the first that stands before. The fault is a `ConfigError` but where the path
-- cannot be resolved, the file cannot be decoded or the parser raises something other than a
-- `YAMLError`: then it is that exception itself.
pub from_file_fault_iff :
    (env : Env) (path : Option String) (f : Fault)
    → (from_file env path ≡ err f) ↔ Explains env path f
from_file_fault_iff env path f = (Explains-to env path, Explains-from env path)
