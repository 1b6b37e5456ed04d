-- ===== src/Config/Reasons.antt =====
-- Which fault an entry of `instances` is reported with (tr_bridge/config.py: `_parse_instance`, and the
-- loops of `_parse_instances`).
use trade_republic_bridge.Base.{
  String, ◌≡◌, ap, subst, ◌∙◌, false, Option, [], ◌∷◌, ok, err, inl, inr, arith, Bool-cases,
  Result-cases,
}
use trade_republic_bridge.Text.{all_chars}
use trade_republic_bridge.Domain.{Message, lit, quoted}
use trade_republic_bridge.Config.{parse_items}
use trade_republic_bridge.Config.Entry.{
  Fault, config_error, InstanceConfig, text_or, option_or, blank, is_name_char, matches_name,
  require_instance_field, validate_instance_name, parse_instance,
}
use trade_republic_bridge.Config.Yaml.{Value, str, dict, Items, nil, cons, Fields, get}
use trade_republic_bridge.Config.Mappings.{AreMappings}
use trade_republic_bridge.Config.Accepts.{
  IsField, IsField-to, IsField-from, DescribesInstance, parse_instance_iff,
}

-- The value of a field is no text, or a text of white space.
abbrev pub NotField : Option Value → Type 0
NotField v = (s : String) → IsField v s → ⊥

pub text_or_own : (fault : Fault) (v : Value) {f : Fault} → text_or fault v ≡ err f → f ≡ fault
text_or_own fault (str t) e = ground arith
text_or_own fault _ e = cc

-- A field that must be a text fails with its own fault, exactly when it is none.
pub text_or_fault :
    (fault : Fault) (v : Option Value) {f : Fault}
    → text_or fault (option_or v (str "")) ≡ err f
    → NotField v
text_or_fault fault v {f} e = λ s field. cc (IsField-from fault v field, e)

pub text_or_from :
    (fault : Fault) (v : Option Value)
    → NotField v
    → text_or fault (option_or v (str "")) ≡ err fault
text_or_from fault v missing = elim (Result-cases (text_or fault (option_or v (str "")))) [
  | inl (s, e) ↦ absurd (missing s (IsField-to fault v e))
  | inr (f, e) ↦ e ∙ ap err (text_or_own fault (option_or v (str "")) e)
]

abbrev misnamed : String → Message
misnamed name =
    lit "Invalid instance name " ∷ quoted name ∷ lit ": must match ^[a-zA-Z0-9_-]+$" ∷ []

-- The fault of an entry: its name, phone and pin are looked at in this order, and what the name is
-- made of last.
pub data InstanceFault (item : Fields) : Fault → Type 0 where
  no_name : NotField (get item "name") → InstanceFault item (config_error (blank "name"))
  no_phone :
      (name : String)
      → IsField (get item "name") name
      → NotField (get item "phone")
      → InstanceFault item (config_error (blank "phone"))
  no_pin :
      (name phone : String)
      → IsField (get item "name") name
      → IsField (get item "phone") phone
      → NotField (get item "pin")
      → InstanceFault item (config_error (blank "pin"))
  bad_name :
      (name phone pin : String)
      → IsField (get item "name") name
      → IsField (get item "phone") phone
      → IsField (get item "pin") pin
      → all_chars is_name_char name ≡ false
      → InstanceFault item (config_error (misnamed name))

InstanceFault-from :
    (item : Fields) {f : Fault} → InstanceFault item f → parse_instance item ≡ err f
unfolding parse_instance require_instance_field validate_instance_name
InstanceFault-from item (no_name m) =
    ground (arith, text_or_from (config_error (blank "name")) (get item "name") m)
InstanceFault-from item (no_phone name n m) = ground (
  arith,
  IsField-from (config_error (blank "name")) (get item "name") n,
  text_or_from (config_error (blank "phone")) (get item "phone") m,
)
InstanceFault-from item (no_pin name phone n p m) = ground (
  arith,
  IsField-from (config_error (blank "name")) (get item "name") n,
  IsField-from (config_error (blank "phone")) (get item "phone") p,
  text_or_from (config_error (blank "pin")) (get item "pin") m,
)
InstanceFault-from item (bad_name name phone pin n p q odd) =
    elim (Bool-cases (matches_name name)) [
      | inr m ↦ ground (
        arith,
        IsField-from (config_error (blank "name")) (get item "name") n,
        IsField-from (config_error (blank "phone")) (get item "phone") p,
        IsField-from (config_error (blank "pin")) (get item "pin") q,
      )
      | inl m ↦
          let fine : parse_instance item ≡ ok (record { name = name; phone = phone; pin = pin }) =
            ground (
              arith,
              IsField-from (config_error (blank "name")) (get item "name") n,
              IsField-from (config_error (blank "phone")) (get item "phone") p,
              IsField-from (config_error (blank "pin")) (get item "pin") q,
            ) in
          let (_, _, _, chars) = (parse_instance_iff item _).0 fine in absurd (cc (chars, odd))
    ]

InstanceFault-same :
    (item : Fields) {f g : Fault}
    → parse_instance item ≡ err f
    → InstanceFault item g
    → InstanceFault item f
InstanceFault-same item e reason =
    subst (InstanceFault item) (cc (InstanceFault-from item reason, e)) reason

InstanceFault-to : (item : Fields) {f : Fault} → parse_instance item ≡ err f → InstanceFault item f
unfolding parse_instance require_instance_field validate_instance_name
InstanceFault-to item {f} e = elim (Result-cases (require_instance_field item "name")) [
  | inr (x, bad) ↦ InstanceFault-same item e (no_name (text_or_fault _ _ bad))
  | inl (name, n) ↦ elim (Result-cases (require_instance_field item "phone")) [
    | inr (x, bad) ↦
        InstanceFault-same item e (no_phone name (IsField-to _ _ n) (text_or_fault _ _ bad))
    | inl (phone, p) ↦ elim (Result-cases (require_instance_field item "pin")) [
      | inr (x, bad) ↦
          InstanceFault-same item e
            (no_pin name phone (IsField-to _ _ n) (IsField-to _ _ p) (text_or_fault _ _ bad))
      | inl (pin, q) ↦ elim (Bool-cases (all_chars is_name_char name)) [
        | inl chars ↦
            let fine =
              (parse_instance_iff item (record { name = name; phone = phone; pin = pin })).1
                (IsField-to _ _ n, IsField-to _ _ p, IsField-to _ _ q, chars) in
            absurd (cc (fine, e))
        | inr odd ↦
            InstanceFault-same item e
              (bad_name name phone pin (IsField-to _ _ n) (IsField-to _ _ p) (IsField-to _ _ q) odd)
      ]
    ]
  ]
]

-- The fault of the first entry that has one.
pub data ItemsFault : Items → Fault → Type 0 where
  this_entry :
      (item : Fields) (items : Items) (f : Fault)
      → InstanceFault item f
      → ItemsFault (cons (dict item) items) f
  later_entry :
      (item : Fields) (i : InstanceConfig) (items : Items) (f : Fault)
      → DescribesInstance item i
      → ItemsFault items f
      → ItemsFault (cons (dict item) items) f

pub ItemsFault-to :
    (items : Items) {f : Fault} → AreMappings items → parse_items items ≡ err f → ItemsFault items f
unfolding parse_items
ItemsFault-to nil m e = cc
ItemsFault-to (cons (dict item) items) {f} m e = elim (Result-cases (parse_instance item)) [
  | inr (x, bad) ↦
      let same : x ≡ f = cc (rw bad at e) in
      this_entry item items f (InstanceFault-to item (bad ∙ ap err same))
  | inl (i, here) ↦
      later_entry item i items f ((parse_instance_iff item i).0 here)
        (ItemsFault-to items m (ground (arith, here)))
]
ItemsFault-to (cons _ items) m e = absurd m

pub ItemsFault-from : (items : Items) {f : Fault} → ItemsFault items f → parse_items items ≡ err f
unfolding parse_items
ItemsFault-from _ (this_entry item items f reason) = ground (arith, InstanceFault-from item reason)
ItemsFault-from _ (later_entry item i items f fine reason) =
    ground (arith, (parse_instance_iff item i).1 fine, ItemsFault-from items reason)
