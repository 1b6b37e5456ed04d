-- ===== src/Web/Schemas.antt =====
-- tr_bridge/adapters/web/schemas.py: the pydantic models of the requests and the responses.
--
-- A model is its list of fields, with what `model_config` says of other keys. What pydantic does with
-- it is a `Pydantic`: nothing here looks into pydantic.
pub mod Echo
pub mod Events
pub mod Faults
mod Sample
mod Tests
use text.Mathlib.Text.{◌==◌ as str_eq}
use trade_republic_bridge.Base.{
  String, ◌≡◌, Bool, true, false, Option, none, some, List, [], ◌∷◌, map, ◌++◌, ◌⊎◌, All, Result,
  ok, err, if◌then◌else◌,
}
use trade_republic_bridge.Domain.{Foreign, Exc, foreign}
use trade_republic_bridge.Registry.{lookup}

pub data Model : Type 0 where
  dependencies_model : Model
  health_response : Model
  instances_response : Model
  status_response : Model
  login_state_response : Model
  two_factor_request : Model
  timeline_event_amount : Model
  timeline_event : Model
  timeline_response : Model

-- The annotations that occur; `a | b` is `one_of a b`.
pub data Annotation : Type 0 where
  str : Annotation
  int : Annotation
  float : Annotation
  nothing : Annotation
  one_of : Annotation → Annotation → Annotation
  list_of : Annotation → Annotation
  instance_of : Model → Annotation

-- A field without a default is required; every default is `None`.
pub record Field : Type 0 where
  pub name : String
  pub annotation : Annotation
  pub is_required : Bool

abbrev needs : String → Annotation → Field
needs name annotation = record { name = name; annotation = annotation; is_required = true }

-- `name: annotation | None = None`
abbrev may_have : String → Annotation → Field
may_have name annotation = record {
  name = name;
  annotation = one_of annotation nothing;
  is_required = false;
}

-- The classes, in the order of the file.
abbrev pub fields : Model → List Field
fields dependencies_model = needs "pytr" str ∷ needs "python" str ∷ []
fields health_response =
    needs "status" str
    ∷ needs "service" str
    ∷ needs "version" str
    ∷ needs "dependencies" (instance_of dependencies_model)
    ∷ []
fields instances_response = needs "instances" (list_of str) ∷ []
fields status_response = needs "name" str ∷ needs "state" str ∷ []
fields login_state_response = needs "state" str ∷ []
fields two_factor_request = needs "code" str ∷ []
fields timeline_event_amount =
    may_have "value" (one_of float (one_of int str)) ∷ may_have "currency" str ∷ []
fields timeline_event =
    needs "id" str
    ∷ needs "timestamp" str
    ∷ may_have "source" str
    ∷ may_have "title" str
    ∷ may_have "subtitle" str
    ∷ may_have "amount" (instance_of timeline_event_amount)
    ∷ may_have "eventType" str
    ∷ may_have "status" str
    ∷ []
fields timeline_response =
    needs "instance" str
    ∷ needs "since" str
    ∷ needs "until" str
    ∷ needs "count" int
    ∷ needs "events" (list_of (instance_of timeline_event))
    ∷ []

-- `model_config = ConfigDict(extra="allow")`
abbrev pub allows_extra : Model → Bool
allows_extra timeline_event_amount = true
allows_extra timeline_event = true
allows_extra _ = false

-- Two lists of one length whose values are related place by place.
abbrev pub Pairwise : {A B : Type 0} → (A → B → Type 0) → List A → List B → Type 0
Pairwise R [] [] = Unit
Pairwise R (x ∷ xs) (y ∷ ys) = R x y × Pairwise R xs ys
Pairwise R _ _ = ⊥

-- Python values, and what pydantic makes of them.
pub record Pydantic : Type 1 where
  pub Value : Type 0
  pub null : Value
  pub text : String → Value
  pub is_int : Value → Bool
  pub is_float : Value → Bool
  pub array : List Value → Value
  pub object : List (String × Value) → Value
  -- The validation of a value, dumped without the fields that were not set
  -- (`response_model_exclude_unset`), or `none` for a `ValidationError`.
  pub dump : Annotation → Value → Option Value
  -- The text of the error for this value.
  pub complaint : Value → String

module _ (py : Pydantic) where
  open py use {Value}

  -- pydantic's `ValidationError`, which is a `ValueError`
  abbrev pub validation_error : Value → Foreign
  validation_error v = record {
    type_name = "ValidationError";
    text = py.complaint v;
    is_exception = true;
    is_value_error = true;
    is_request = false;
    status_code = none;
  }

  abbrev dumped_or_raised : Value → Option Value → Result Exc Value
  dumped_or_raised v none = err (foreign (validation_error v))
  dumped_or_raised v (some dumped) = ok dumped

  -- The field `events` of a `TimelineResponse` that is built of the dicts that pytr gave.
  pub validate_events : List (List (String × Value)) → Result Exc Value
  validate_events events =
      let v = py.array (map py.object events) in
      dumped_or_raised v (py.dump (list_of (instance_of timeline_event)) v)

  -- What a model makes of a key: a field is dumped by its annotation, and any other key is kept.
  abbrev pub dumped : List Field → List (String × Value) → String → Option Value
  dumped [] values key = lookup key values
  dumped (f ∷ fs) values key =
      if str_eq f.name key
      then elim (lookup key values) [ none ↦ none | some v ↦ py.dump f.annotation v ]
      else dumped fs values key

  -- A field can be made of the value that is there, or of none.
  abbrev pub Takes : Field → Option Value → Type 0
  Takes f none = f.is_required ≡ false
  Takes f (some v) = (w : Value) × (py.dump f.annotation v ≡ some w)

  -- It cannot: it is required and not there, or it is there and refused.
  abbrev pub Refuses : Field → Option Value → Type 0
  Refuses f none = f.is_required ≡ true
  Refuses f (some v) = py.dump f.annotation v ≡ none

  -- Some field cannot be made of these values.
  abbrev pub Lacking : List (String × Value) → List Field → Type 0
  Lacking values [] = ⊥
  Lacking values (f ∷ fs) = Refuses f (lookup f.name values) ⊎ Lacking values fs

  -- What the documentation of pydantic promises: a value of one of the scalar types is kept, a union
  -- in its smart mode keeps what one of its members keeps, takes a member that alone fits and refuses
  -- what no member takes, a list is validated item by item, and a model that allows other keys takes a
  -- dict if all its fields fit and refuses it if one does not.
  pub record IsPydantic : Type 0 where
    pub str_text : (s : String) → py.dump str (py.text s) ≡ some (py.text s)
    pub str_object : (values : List (String × Value)) → py.dump str (py.object values) ≡ none
    pub int_int : (v : Value) → py.is_int v ≡ true → py.dump int v ≡ some v
    pub float_float : (v : Value) → py.is_float v ≡ true → py.dump float v ≡ some v
    pub nothing_null : py.dump nothing py.null ≡ some py.null
    pub nothing_object :
        (values : List (String × Value)) → py.dump nothing (py.object values) ≡ none
    pub keeps_left :
        (a b : Annotation) (v : Value) → py.dump a v ≡ some v → py.dump (one_of a b) v ≡ some v
    pub keeps_right :
        (a b : Annotation) (v : Value) → py.dump b v ≡ some v → py.dump (one_of a b) v ≡ some v
    pub takes_left :
        (a b : Annotation) (v w : Value)
        → py.dump a v ≡ some w
        → py.dump b v ≡ none
        → py.dump (one_of a b) v ≡ some w
    pub takes_none :
        (a b : Annotation) (v : Value)
        → py.dump a v ≡ none
        → py.dump b v ≡ none
        → py.dump (one_of a b) v ≡ none
    pub list_takes :
        (a : Annotation) (vs ws : List Value)
        → Pairwise (λ v w. py.dump a v ≡ some w) vs ws
        → py.dump (list_of a) (py.array vs) ≡ some (py.array ws)
    pub list_refuses :
        (a : Annotation) (before after : List Value) (v : Value)
        → py.dump a v ≡ none
        → py.dump (list_of a) (py.array (before ++ v ∷ after)) ≡ none
    pub model_takes :
        (m : Model) (values : List (String × Value))
        → allows_extra m ≡ true
        → All (λ f. Takes f (lookup f.name values)) (fields m)
        → (out : List (String × Value)) × (py.dump (instance_of m) (py.object values)
            ≡ some (py.object out))
          × ((key : String) → lookup key out ≡ dumped (fields m) values key)
    pub model_refuses :
        (m : Model) (values : List (String × Value))
        → allows_extra m ≡ true
        → Lacking values (fields m)
        → py.dump (instance_of m) (py.object values) ≡ none
