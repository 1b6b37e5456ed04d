-- ===== src/Registry/Built.antt =====
-- The registry of a valid configuration (tr_bridge/instance_registry.py: `__init__`, `get`).
use text.Mathlib.Text.{◌==◌ as str_eq}
use text.Mathlib.TextEquality.{eq_iff}
use text.Mathlib.TextPositions.{eq_refl}
use mathlib.Core.List.{append_assoc, append-nil}
use trade_republic_bridge.Base.{
  some, Bool-cases, inl, inr, String, ◌≡◌, refl, sym, ap, subst, ◌∙◌, ◌↔◌, true, false, ◌||◌, none,
  List, [], ◌∷◌, ◌++◌, map, ok, err, arith, All,
}
use trade_republic_bridge.Text.{◌<>◌}
use trade_republic_bridge.Domain.{instance_not_found, domain}
use trade_republic_bridge.Config.{Config, session_dir, names, contains, instance_names}
use trade_republic_bridge.Config.Entry.{InstanceConfig}
use trade_republic_bridge.Config.Names.{IsDistinct}
use trade_republic_bridge.Config.Valid.{IsConfig}
use trade_republic_bridge.Session.{init}
use trade_republic_bridge.Registry.{
  Instance, Registry, insert, lookup, keys, make_instance, build_from, build, get,
}

-- The directory that `session_dir` gives for a configured name.
abbrev dir_of : Config → String → String
dir_of c name = c.data_root <> "/tr_session_" <> name

session_dir_known :
    (c : Config) (name : String)
    → contains name (instance_names c) ≡ true
    → session_dir c name ≡ ok (dir_of c name)
unfolding session_dir
session_dir_known c name e = ground arith

insert_new :
    {V : Type 0} (key : String) (v : V) (d : List (String × V))
    → contains key (keys d) ≡ false
    → insert key v d ≡ d ++ (key, v) ∷ []
insert_new key v [] h = refl
insert_new key v (e ∷ d) h = ground (arith, insert_new key v d, eq_iff e.0 key, eq_iff key e.0)

-- The registry that the dict comprehension is meant to make.
abbrev pub expected : {Api : Type 0} → Config → List InstanceConfig → Registry Api
expected c = map (λ i. (i.name, make_instance c i (dir_of c i.name)))

contains-snoc :
    {V : Type 0} (x key : String) (v : V) (d : List (String × V))
    → contains x (keys (d ++ (key, v) ∷ [])) ≡ (contains x (keys d) || str_eq x key)
contains-snoc x key v [] = ground arith
contains-snoc x key v (e ∷ d) = ground (arith, contains-snoc x key v d)

-- None of the instances is in the registry yet.
abbrev New : {V : Type 0} → List (String × V) → List InstanceConfig → Type 0
New d = All (λ i. contains i.name (keys d) ≡ false)

New-snoc :
    {V : Type 0} (key : String) (v : V) (d : List (String × V)) (is : List InstanceConfig)
    → contains key (names is) ≡ false
    → New d is
    → New (d ++ (key, v) ∷ []) is
New-snoc key v d [] h n = tt
New-snoc key v d (i ∷ is) h n = (
  ground (arith, n.0, contains-snoc i.name key v d, eq_iff i.name key, eq_iff key i.name),
  New-snoc key v d is (ground arith) n.1,
)

abbrev Known : Config → List InstanceConfig → Type 0
Known c = All (λ i. contains i.name (instance_names c) ≡ true)

build_from-expected :
    {Api : Type 0} (c : Config) (is : List InstanceConfig) (reg : Registry Api)
    → Known c is
    → IsDistinct (names is)
    → New reg is
    → build_from c is reg ≡ ok (reg ++ expected c is)
unfolding build_from
build_from-expected c [] reg k d n = ap ok (sym (append-nil reg))
build_from-expected c (i ∷ is) reg k d n =
    let inst = make_instance c i (dir_of c i.name) in
    rw (session_dir_known c i.name k.0, insert_new i.name inst reg n.0)
      (build_from-expected c is (reg ++ (i.name, inst) ∷ []) k.1 d.1
          (New-snoc i.name inst reg is d.0 n.1)
        ∙ ap ok (append_assoc reg ((i.name, inst) ∷ []) (expected c is)))

contains-later :
    (x : String) (is js : List InstanceConfig)
    → All (λ i. contains i.name (names js) ≡ true) is
    → All (λ i. contains i.name (x ∷ names js) ≡ true) is
contains-later x [] js h = tt
contains-later x (i ∷ is) js h = (ground (arith, h.0), contains-later x is js h.1)

All-known : (is : List InstanceConfig) → All (λ i. contains i.name (names is) ≡ true) is
All-known [] = tt
All-known (i ∷ is) = (ground (arith, eq_refl i.name), contains-later i.name is is (All-known is))

New-nil : (V : Type 0) (is : List InstanceConfig) → New {V = V} [] is
New-nil V [] = tt
New-nil V (i ∷ is) = (refl, New-nil V is)

-- For a valid configuration the registry is made, and it holds exactly one fresh session with its
-- client for each configured instance, in the order of the configuration.
pub build-expected :
    {Api : Type 0} (c : Config) → IsConfig c → build {Api = Api} c ≡ ok (expected c c.instances)
unfolding build
build-expected {Api} c v =
    build_from-expected c c.instances [] (All-known c.instances) v.distinct
      (New-nil (Instance Api) c.instances)

pub contains-keys :
    {V : Type 0} (name : String) (d : List (String × V))
    → (lookup name d ≡ none) ↔ (contains name (keys d) ≡ false)
contains-keys name [] = ((λ e. refl), λ e. refl)
contains-keys name (e ∷ d) =
    let (to, from) = contains-keys name d in
    (
      (λ h. ground (arith, to, eq_iff e.0 name, eq_iff name e.0)),
      λ h. ground (arith, from, eq_iff e.0 name, eq_iff name e.0),
    )

keys-expected :
    (Api : Type 0) (c : Config) (is : List InstanceConfig)
    → keys (expected {Api = Api} c is) ≡ names is
keys-expected Api c [] = refl
keys-expected Api c (i ∷ is) = ap (◌∷◌ i.name) (keys-expected Api c is)

-- In the registry of a valid configuration, `get` raises `InstanceNotFoundError` exactly for the
-- names that are not configured.
get_unknown_iff :
    {Api : Type 0} (c : Config) (name : String) (reg : Registry Api)
    → IsConfig c
    → build c ≡ ok reg
    → (get reg name ≡ err (domain (instance_not_found name)))
      ↔ (contains name (instance_names c) ≡ false)
unfolding get
get_unknown_iff {Api} c name reg v e =
    let whole : expected c c.instances ≡ reg = ground (arith, build-expected {Api = Api} c v) in
    let same : keys reg ≡ names c.instances =
      subst (λ r. keys r ≡ names c.instances) whole (keys-expected Api c c.instances) in
    let (to, from) = contains-keys name reg in
    ((λ h. rw (← same) (to (ground arith))), λ h. ground (arith, from (rw same h)))

-- The instance of a name in the registry that is made at start-up.
pub lookup-expected :
    {Api : Type 0} (c : Config) (name : String) (is : List InstanceConfig) {inst : Instance Api}
    → lookup name (expected c is) ≡ some inst
    → inst.session ≡ init name c.tfa_timeout
unfolding make_instance
lookup-expected c name [] e = cc
lookup-expected {Api} c name (i ∷ is) {inst} e = elim (Bool-cases (str_eq i.name name)) [
  | inl same ↦ ground (arith, eq_iff i.name name)
  | inr other ↦ lookup-expected c name is (rw other at e)
]
