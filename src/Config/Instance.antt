-- ===== src/Config/Instance.antt =====
-- What an accepted entry of `instances` satisfies (tr_bridge/config.py: `_parse_instance`).
use trade_republic_bridge.Base.{
  Char, String, ◌≡◌, refl, subst, true, false, ok, arith, Bool-cases, inl, inr,
}
use trade_republic_bridge.Text.{is_empty, is_space, strip, EndsOutside, all_chars}
use trade_republic_bridge.Text.Strip.{strip_idem, strip-EndsOutside}
use trade_republic_bridge.Config.{require_str}
use trade_republic_bridge.Config.Entry.{
  Fault, InstanceConfig, require_instance_field, is_name_char, matches_rest, matches_name,
  validate_instance_name, parse_instance, text_or,
}
use trade_republic_bridge.Config.Yaml.{Value, str, Fields}

-- A text with something in it and no white space at its ends.
pub record IsText (s : String) : Type 0 where
  pub filled : is_empty s ≡ false
  pub stripped : strip s ≡ s

pub record IsInstance (i : InstanceConfig) : Type 0 where
  pub name : IsText i.name
  pub name_chars : all_chars is_name_char i.name ≡ true
  pub phone : IsText i.phone
  pub pin : IsText i.pin

text_or-IsText : (fault : Fault) (v : Value) {s : String} → text_or fault v ≡ ok s → IsText s
text_or-IsText fault (str t) {s} e = elim (Bool-cases (is_empty (strip t))) [
  | inl blank ↦ cc (rw blank at e)
  | inr filled ↦
      let same : strip t ≡ s = cc (rw filled at e) in
      subst IsText same (record { filled = filled; stripped = strip_idem t })
]
text_or-IsText fault _ e = cc

-- A stripped name holds no line feed at its end, so `$` matches at the end alone.
matches_rest-all_chars :
    (c : Char) (s : String)
    → matches_rest s ≡ true
    → EndsOutside is_space (String.◌∷◌ c s)
    → all_chars is_name_char s ≡ true
unfolding is_space
matches_rest-all_chars c String.[] m h = refl
matches_rest-all_chars c (String.◌∷◌ d String.[]) m h = ground arith
matches_rest-all_chars c (String.◌∷◌ d (String.◌∷◌ x s)) m h =
    ground (arith, matches_rest-all_chars d (String.◌∷◌ x s))

matches_name-all_chars :
    (s : String) → matches_name s ≡ true → EndsOutside is_space s → all_chars is_name_char s ≡ true
matches_name-all_chars String.[] m h = refl
matches_name-all_chars (String.◌∷◌ c s) m h = ground (arith, matches_rest-all_chars c s)

IsText-EndsOutside : {s : String} → IsText s → EndsOutside is_space s
IsText-EndsOutside {s} t = subst (EndsOutside is_space) t.stripped (strip-EndsOutside s)

pub parse_instance_parts :
    (item : Fields) {i : InstanceConfig}
    → parse_instance item ≡ ok i
    → (require_instance_field item "name" ≡ ok i.name)
      × (require_instance_field item "phone" ≡ ok i.phone)
      × (require_instance_field item "pin" ≡ ok i.pin)
      × (validate_instance_name i.name ≡ ok tt)
unfolding parse_instance
parse_instance_parts item e = ground arith

require_instance_field-IsText :
    (item : Fields) (key : String) {s : String} → require_instance_field item key ≡ ok s → IsText s
unfolding require_instance_field
require_instance_field-IsText item key e = text_or-IsText _ _ e

validated-all_chars :
    (name : String)
    → validate_instance_name name ≡ ok tt
    → IsText name
    → all_chars is_name_char name ≡ true
unfolding validate_instance_name
validated-all_chars name e t = matches_name-all_chars name (ground arith) (IsText-EndsOutside t)

-- An instance that `_parse_instance` accepts has a non-empty stripped name of letters, digits, `_`
-- and `-` only, and a non-empty stripped phone and pin.
pub parse_instance-IsInstance :
    (item : Fields) {i : InstanceConfig} → parse_instance item ≡ ok i → IsInstance i
parse_instance-IsInstance item {i} e = record {
  name = name;
  name_chars = validated-all_chars _ parts.3 name;
  phone = require_instance_field-IsText item "phone" parts.1;
  pin = require_instance_field-IsText item "pin" parts.2;
}
  where
    parts :
        (require_instance_field item "name" ≡ ok i.name)
        × (require_instance_field item "phone" ≡ ok i.phone)
        × (require_instance_field item "pin" ≡ ok i.pin)
        × (validate_instance_name i.name ≡ ok tt)
    parts = parse_instance_parts item e

    name : IsText i.name
    name = require_instance_field-IsText item "name" parts.0

pub require_str-IsText :
    (raw : Fields) (key : String) {s : String} → require_str raw key ≡ ok s → IsText s
unfolding require_str
require_str-IsText raw key e = text_or-IsText _ _ e
