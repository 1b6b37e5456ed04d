-- ===== src/Config/Accepts.antt =====
-- Exactly which files are accepted (tr_bridge/config.py: `from_file` and what it calls).
use trade_republic_bridge.Base.{
  ℕ, suc, ◌<◌, String, ◌≡◌, ◌≢◌, ◌↔◌, ◌⊎◌, inl, inr, refl, true, false, Option, none, some, List,
  [], ◌∷◌, ok, arith, Bool-cases, pos,
}
use trade_republic_bridge.Text.{is_empty, is_space, strip, all_chars}
use trade_republic_bridge.Config.Valid.{parse_entries_parts, parse_items-ne-nil}
use trade_republic_bridge.Config.{
  default_tfa_timeout, check_mappings, parse_items, names, parse_entries, parse_listed, timeout_or,
}
use trade_republic_bridge.Config.Entry.{
  config_error, blank, Fault, InstanceConfig, text_or, option_or, require_instance_field,
  is_name_char, matches_rest, validate_instance_name, parse_instance,
}
use trade_republic_bridge.Config.Yaml.{Value, str, int, list, dict, Items, nil, cons, Fields, get}
use trade_republic_bridge.Config.Names.{IsDistinct, check_duplicates_iff}
use trade_republic_bridge.Config.Instance.{parse_instance-IsInstance, parse_instance_parts}

-- The value of a field is a text that is `s` between white space, and `s` is not empty.
abbrev pub IsField : Option Value → String → Type 0
IsField v s = (t : String) × (v ≡ some (str t)) × (strip t ≡ s) × (is_empty s ≡ false)

pub IsField-to :
    (fault : Fault) (v : Option Value) {s : String}
    → text_or fault (option_or v (str "")) ≡ ok s
    → IsField v s
unfolding strip is_space
IsField-to fault none e = absurd (ground arith)
IsField-to fault (some (str t)) {s} e = elim (Bool-cases (is_empty (strip t))) [
  | inl blank ↦ absurd (ground arith)
  | inr filled ↦ (t, refl, ground arith, ground arith)
]
IsField-to fault (some _) e = cc

pub IsField-from :
    (fault : Fault) (v : Option Value) {s : String}
    → IsField v s
    → text_or fault (option_or v (str "")) ≡ ok s
IsField-from fault v (t, e, stripped, filled) = ground arith

matches_rest_of : (s : String) → all_chars is_name_char s ≡ true → matches_rest s ≡ true
matches_rest_of String.[] h = refl
matches_rest_of (String.◌∷◌ c s) h = ground (arith, matches_rest_of s)

-- An entry that describes the instance `i`.
abbrev pub DescribesInstance : Fields → InstanceConfig → Type 0
DescribesInstance item i =
    IsField (get item "name") i.name
    × IsField (get item "phone") i.phone
    × IsField (get item "pin") i.pin
    × (all_chars is_name_char i.name ≡ true)

valid_name :
    (name : String)
    → is_empty name ≡ false
    → all_chars is_name_char name ≡ true
    → validate_instance_name name ≡ ok tt
unfolding validate_instance_name
valid_name String.[] f h = absurd (ground arith)
valid_name (String.◌∷◌ c s) f h = ground (arith, matches_rest_of s)

pub parse_instance_iff :
    (item : Fields) (i : InstanceConfig) → (parse_instance item ≡ ok i) ↔ DescribesInstance item i
unfolding parse_instance require_instance_field
parse_instance_iff item i = (to, from)
  where
    from : DescribesInstance item i → parse_instance item ≡ ok i
    from (n, p, q, chars) = ground (
      arith,
      IsField-from (config_error (blank "name")) (get item "name") n,
      IsField-from (config_error (blank "phone")) (get item "phone") p,
      IsField-from (config_error (blank "pin")) (get item "pin") q,
      valid_name i.name n.3 chars,
    )

    to : parse_instance item ≡ ok i → DescribesInstance item i
    to e =
        let (n, p, q, _) = parse_instance_parts item e in
        (
          IsField-to _ _ n,
          IsField-to _ _ p,
          IsField-to _ _ q,
          (parse_instance-IsInstance item e).name_chars,
        )

-- The entries describe the instances, one each, in their order.
abbrev pub DescribesItems : Items → List InstanceConfig → Type 0
DescribesItems nil [] = Unit
DescribesItems (cons (dict item) items) (i ∷ is) =
    DescribesInstance item i × DescribesItems items is
DescribesItems _ _ = ⊥

pub parse_items_to :
    (items : Items) (is : List InstanceConfig) → parse_items items ≡ ok is → DescribesItems items is
unfolding parse_items
parse_items_to nil [] e = tt
parse_items_to nil (i ∷ is) e = absurd (ground arith)
parse_items_to (cons (dict item) items) [] e = absurd (ground arith)
parse_items_to (cons (dict item) items) (i ∷ is) e =
    ((parse_instance_iff item i).0 (ground arith), parse_items_to items is (ground arith))
parse_items_to (cons _ items) is e = cc

pub parse_items_from :
    (items : Items) (is : List InstanceConfig) → DescribesItems items is → parse_items items ≡ ok is
unfolding parse_items
parse_items_from nil [] d = refl
parse_items_from nil (i ∷ is) d = absurd d
parse_items_from (cons (dict item) items) [] d = absurd d
parse_items_from (cons (dict item) items) (i ∷ is) d =
    ground (arith, (parse_instance_iff item i).1 d.0, parse_items_from items is d.1)
parse_items_from (cons _ items) is d = absurd d

check_mappings_of :
    (n : ℕ) (items : Items) (is : List InstanceConfig)
    → DescribesItems items is
    → check_mappings n items ≡ ok tt
unfolding check_mappings
check_mappings_of n nil is d = refl
check_mappings_of n (cons (dict item) items) [] d = absurd d
check_mappings_of n (cons (dict item) items) (i ∷ is) d = check_mappings_of (suc n) items is d.1
check_mappings_of n (cons _ items) is d = absurd d

-- The value of `instances` is a list that describes `is`, which are some and have distinct names.
abbrev pub IsListing : Option Value → List InstanceConfig → Type 0
IsListing v is =
    (items : Items) × (v ≡ some (list items))
    × DescribesItems items is
    × (is ≢ [])
    × IsDistinct (names is)

parse_entries_from :
    (items : Items) (is : List InstanceConfig)
    → DescribesItems items is
    → IsDistinct (names is)
    → parse_entries items ≡ ok is
unfolding parse_entries
parse_entries_from items is d distinct = ground (
  arith,
  check_mappings_of 0 items is d,
  parse_items_from items is d,
  (check_duplicates_iff (names is)).1 distinct,
)

pub parse_listed_from :
    (v : Option Value) (is : List InstanceConfig) → IsListing v is → parse_listed v ≡ ok is
unfolding parse_listed
parse_listed_from v [] (items, e, d, some_instance, distinct) = absurd (some_instance refl)
parse_listed_from v (i ∷ is) (nil, e, d, some_instance, distinct) = absurd d
parse_listed_from v (i ∷ is) (cons item items, e, d, some_instance, distinct) =
    rw e (parse_entries_from (cons item items) (i ∷ is) d distinct)

pub parse_listed_to :
    (v : Option Value) (is : List InstanceConfig) → parse_listed v ≡ ok is → IsListing v is
unfolding parse_listed
parse_listed_to (some (list (cons item items))) is e =
    let (_, parsed, checked) = parse_entries_parts (cons item items) e in
    (
      cons item items,
      refl,
      parse_items_to (cons item items) is parsed,
      parse_items-ne-nil item items parsed,
      (check_duplicates_iff _).0 checked,
    )
parse_listed_to _ is e = cc

-- The value of `tfa_timeout` stands for `n` seconds.
abbrev pub IsTimeout : Option Value → ℕ → Type 0
IsTimeout v n = ((v ≡ none) × (n ≡ default_tfa_timeout)) ⊎ ((v ≡ some (int (pos n))) × (0 < n))

pub IsTimeout-to :
    (v : Option Value) (n : ℕ)
    → timeout_or (option_or v (int (pos default_tfa_timeout))) ≡ ok n
    → IsTimeout v n
IsTimeout-to none n e = inl (refl, ground arith)
IsTimeout-to (some (int (pos (suc m)))) n e = inr (ground arith, ground arith)
IsTimeout-to (some _) n e = cc

pub IsTimeout-from :
    (v : Option Value) (n : ℕ)
    → IsTimeout v n
    → timeout_or (option_or v (int (pos default_tfa_timeout))) ≡ ok n
IsTimeout-from v n (inl (e, same)) = ground arith
IsTimeout-from v n (inr (e, positive)) = ground arith
