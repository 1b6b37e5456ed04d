-- ===== src/Config/Yaml.antt =====
-- What `yaml.safe_load` gives (tr_bridge/config.py): values by what `isinstance` asks of them.
use text.Mathlib.Text.{◌==◌ as str_eq}
use trade_republic_bridge.Base.{ℤ, String, Bool, false, Option, none, some, if◌then◌else◌}

-- `other` is a value of any other type (float, date, bytes, set), by the name of its type.
mutual
  pub data Value : Type 0 where
    null : Value
    boolean : Bool → Value
    int : ℤ → Value
    str : String → Value
    list : Items → Value
    dict : Fields → Value
    other : String → Value

  pub data Items : Type 0 where
    nil : Items
    cons : Value → Items → Items

  -- A dict in the order of its entries; no key stands twice.
  pub data Fields : Type 0 where
    done : Fields
    field : Value → Value → Fields → Fields

-- `type(value).__name__`
abbrev pub type_name : Value → String
type_name null = "NoneType"
type_name (boolean _) = "bool"
type_name (int _) = "int"
type_name (str _) = "str"
type_name (list _) = "list"
type_name (dict _) = "dict"
type_name (other name) = name

abbrev is_key : String → Value → Bool
is_key key (str s) = str_eq s key
is_key key _ = false

-- `raw.get(key)` for a string key
abbrev pub get : Fields → String → Option Value
get done key = none
get (field k v rest) key = if is_key key k then some v else get rest key
