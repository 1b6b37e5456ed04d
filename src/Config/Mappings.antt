-- ===== src/Config/Mappings.antt =====
-- The entries of `instances` that are no mappings (tr_bridge/config.py: the first loop of
-- `_parse_instances`).
use trade_republic_bridge.Base.{ℕ, suc, ◌≡◌, refl, subst, Bool, true, false, [], ◌∷◌, ok, err}
use trade_republic_bridge.Domain.{lit, number, shown}
use trade_republic_bridge.Config.{check_mappings}
use trade_republic_bridge.Config.Entry.{Fault, config_error}
use trade_republic_bridge.Config.Yaml.{Value, dict, type_name, Items, nil, cons, Fields}

-- Every entry is a mapping.
abbrev pub AreMappings : Items → Type 0
AreMappings nil = Unit
AreMappings (cons (dict item) items) = AreMappings items
AreMappings (cons _ items) = ⊥

abbrev pub is_dict : Value → Bool
is_dict (dict _) = true
is_dict _ = false

-- What is reported of entry `i`.
abbrev pub no_mapping : ℕ → Value → Fault
no_mapping i v = config_error (
    lit "Each entry in 'instances' must be a mapping; entry "
    ∷ number i
    ∷ lit " is "
    ∷ shown (type_name v)
    ∷ [])

-- The first entry that is no mapping is reported, with its position.
pub data NotMapping : ℕ → Items → Fault → Type 0 where
  this_value :
      (i : ℕ) (v : Value) (items : Items)
      → is_dict v ≡ false
      → NotMapping i (cons v items) (no_mapping i v)
  later_value :
      (i : ℕ) (item : Fields) (items : Items) (f : Fault)
      → NotMapping (suc i) items f
      → NotMapping i (cons (dict item) items) f

this_value_as :
    (i : ℕ) (v : Value) (items : Items) {f : Fault}
    → is_dict v ≡ false
    → check_mappings i (cons v items) ≡ err f
    → NotMapping i (cons v items) f
unfolding check_mappings
this_value_as i (dict _) items {f} h e = cc
this_value_as i v items {f} h e =
    let same : no_mapping i v ≡ f = cc in
    subst (NotMapping i (cons v items)) same (this_value i v items h)

pub NotMapping-to :
    (i : ℕ) (items : Items) {f : Fault} → check_mappings i items ≡ err f → NotMapping i items f
unfolding check_mappings
NotMapping-to i nil e = cc
NotMapping-to i (cons (dict item) items) {f} e =
    later_value i item items f (NotMapping-to (suc i) items e)
NotMapping-to i (cons v items) e = this_value_as i v items refl e

pub NotMapping-from :
    (i : ℕ) (items : Items) {f : Fault} → NotMapping i items f → check_mappings i items ≡ err f
unfolding check_mappings
NotMapping-from _ _ (this_value i (dict _) items h) = cc
NotMapping-from _ _ (this_value i v items h) = refl
NotMapping-from _ _ (later_value i item items f h) = NotMapping-from (suc i) items h

pub AreMappings-to : (i : ℕ) (items : Items) → check_mappings i items ≡ ok tt → AreMappings items
unfolding check_mappings
AreMappings-to i nil e = tt
AreMappings-to i (cons (dict item) items) e = AreMappings-to (suc i) items e
AreMappings-to i (cons v items) e = cc

pub AreMappings-from : (i : ℕ) (items : Items) → AreMappings items → check_mappings i items ≡ ok tt
unfolding check_mappings
AreMappings-from i nil m = refl
AreMappings-from i (cons (dict item) items) m = AreMappings-from (suc i) items m
AreMappings-from i (cons v items) m = absurd m
