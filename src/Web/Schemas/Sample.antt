-- ===== src/Web/Schemas/Sample.antt =====
-- A pydantic for JSON without fractions, which keeps what it accepts; it has what
-- Web/Schemas.antt assumes.
use text.Mathlib.Text.{◌==◌ as str_eq}
use text.Mathlib.TextEquality.{eq_iff}
use trade_republic_bridge.Base.{
  ℕ, String, ◌≡◌, refl, subst, ap, Bool, true, false, not, ◌&&◌, ◌||◌, Option, none, some, List, [],
  ◌∷◌, ◌++◌, All, inl, inr, arith, if◌then◌else◌, Bool-cases,
}
use trade_republic_bridge.Registry.{lookup}
use trade_republic_bridge.Web.Schemas.{
  Model, timeline_event, timeline_event_amount, Annotation, str, int, float, nothing, one_of,
  list_of, instance_of, Field, fields, allows_extra, Pairwise, Pydantic, IsPydantic, dumped, Takes,
  Refuses, Lacking,
}

mutual
  pub data Json : Type 0 where
    null : Json
    letters : String → Json
    number : ℕ → Json
    array : Items → Json
    object : Entries → Json

  pub data Items : Type 0 where
    no_item : Items
    item : Json → Items → Items

  pub data Entries : Type 0 where
    no_entry : Entries
    entry : String → Json → Entries → Entries

abbrev pub items : List Json → Items
items [] = no_item
items (v ∷ vs) = item v (items vs)

abbrev pub entries : List (String × Json) → Entries
entries [] = no_entry
entries (e ∷ es) = entry e.0 e.1 (entries es)

abbrev pairs : Entries → List (String × Json)
pairs no_entry = []
pairs (entry key v es) = (key, v) ∷ pairs es

pairs-entries : (es : List (String × Json)) → pairs (entries es) ≡ es
pairs-entries [] = refl
pairs-entries (e ∷ es) = ap (λ rest. e ∷ rest) (pairs-entries es)

abbrev is_text : Json → Bool
is_text (letters s) = true
is_text _ = false

abbrev is_number : Json → Bool
is_number (number n) = true
is_number _ = false

abbrev is_null : Json → Bool
is_null null = true
is_null _ = false

abbrev all_items : (Json → Bool) → Items → Bool
all_items p no_item = true
all_items p (item v vs) = p v && all_items p vs

abbrev each_item : (Json → Bool) → Json → Bool
each_item p (array vs) = all_items p vs
each_item p _ = false

abbrev accepts : (Model → Json → Bool) → Annotation → Json → Bool
accepts inner str v = is_text v
accepts inner int v = is_number v
accepts inner float v = false
accepts inner nothing v = is_null v
accepts inner (one_of a b) v = accepts inner a v || accepts inner b v
accepts inner (list_of a) v = each_item (accepts inner a) v
accepts inner (instance_of m) v = inner m v

abbrev fits : (Annotation → Json → Bool) → Field → Option Json → Bool
fits accept f none = not f.is_required
fits accept f (some v) = accept f.annotation v

abbrev all_fit : (Annotation → Json → Bool) → List Field → List (String × Json) → Bool
all_fit accept [] values = true
all_fit accept (f ∷ fs) values = fits accept f (lookup f.name values) && all_fit accept fs values

abbrev fits_model : (Annotation → Json → Bool) → Model → Json → Bool
fits_model accept m (object es) = all_fit accept (fields m) (pairs es)
fits_model accept m _ = false

-- Models inside of models, as deep as an event goes.
abbrev no_model : Model → Json → Bool
no_model m v = false

abbrev shallow : Annotation → Json → Bool
shallow = accepts (fits_model (accepts no_model))

abbrev deep : Annotation → Json → Bool
deep = accepts (fits_model shallow)

abbrev pub sample : Pydantic
sample = record {
  Value = Json;
  null = null;
  text = letters;
  is_int = is_number;
  is_float = λ _. false;
  array = λ vs. array (items vs);
  object = λ es. object (entries es);
  dump = λ a v. if deep a v then some v else none;
  complaint = λ v. "1 validation error";
}

-- In an event the two levels agree.
abbrev Agrees : Field → Type 0
Agrees f = (v : Json) → shallow f.annotation v ≡ deep f.annotation v

amount_agrees :
    (v : Json)
    → fits_model (accepts no_model) timeline_event_amount v
      ≡ fits_model shallow timeline_event_amount v
amount_agrees (object es) = refl
amount_agrees null = refl
amount_agrees (letters s) = refl
amount_agrees (number n) = refl
amount_agrees (array vs) = refl

agrees : (m : Model) → allows_extra m ≡ true → All Agrees (fields m)
agrees timeline_event_amount e = ((λ v. refl), ((λ v. refl), tt))
agrees timeline_event e = (
  (λ v. refl),
  (
    (λ v. refl),
    (
      (λ v. refl),
      (
        (λ v. refl),
        (
          (λ v. refl),
          ((λ v. ap (λ b. b || is_null v) (amount_agrees v)), ((λ v. refl), ((λ v. refl), tt))),
        ),
      ),
    ),
  ),
)
agrees _ e = cc

module _ (values : List (String × Json)) where
  -- The fields that the sample takes, and what it makes of them.
  fits-Takes : (f : Field) (o : Option Json) → Agrees f → Takes sample f o → fits shallow f o ≡ true
  fits-Takes f none a h = ground arith
  fits-Takes f (some v) a h = ground (arith, a v, h.1)

  all_fit-Takes :
      (fs : List Field)
      → All Agrees fs
      → All (λ f. Takes sample f (lookup f.name values)) fs
      → all_fit shallow fs values ≡ true
  all_fit-Takes [] a h = refl
  all_fit-Takes (f ∷ fs) a h =
      rw (fits-Takes f (lookup f.name values) a.0 h.0) (all_fit-Takes fs a.1 h.1)

  fits-Refuses :
      (f : Field) (o : Option Json) → Agrees f → Refuses sample f o → fits shallow f o ≡ false
  fits-Refuses f none a h = ground arith
  fits-Refuses f (some v) a h = ground (arith, a v)

  all_fit-Refuses :
      (fs : List Field)
      → All Agrees fs
      → Lacking sample values fs
      → all_fit shallow fs values ≡ false
  all_fit-Refuses [] a h = absurd h
  all_fit-Refuses (f ∷ fs) a (inl h) = rw (fits-Refuses f (lookup f.name values) a.0 h) refl
  all_fit-Refuses (f ∷ fs) a (inr h) = ground (arith, all_fit-Refuses fs a.1 h)

  made-Takes :
      (f : Field) (o : Option Json)
      → Takes sample f o
      → o ≡ elim o [ none ↦ none | some v ↦ sample.dump f.annotation v ]
  made-Takes f none h = refl
  made-Takes f (some v) h = ground (arith, h.1)

  kept :
      (fs : List Field) (key : String)
      → All (λ f. Takes sample f (lookup f.name values)) fs
      → lookup key values ≡ dumped sample fs values key
  kept [] key h = refl
  kept (f ∷ fs) key h = elim (Bool-cases (str_eq f.name key)) [
    | inl here ↦ rw here (
        subst
          (λ k.
            lookup k values
            ≡ elim (lookup k values) [ none ↦ none | some v ↦ sample.dump f.annotation v ])
          ((eq_iff f.name key).0 here) (made-Takes f (lookup f.name values) h.0))
    | inr other ↦ rw other (kept fs key h.1)
  ]

list_takes :
    (a : Annotation) (vs ws : List Json)
    → Pairwise (λ v w. sample.dump a v ≡ some w) vs ws
    → (all_items (deep a) (items vs) ≡ true) × (vs ≡ ws)
list_takes a [] [] h = (refl, refl)
list_takes a (v ∷ vs) (w ∷ ws) h =
    let (all, same) = list_takes a vs ws h.1 in
    let (here, kept_v) : (deep a v ≡ true) × (v ≡ w) = (ground (arith, h.0), ground (arith, h.0)) in
    (ground (arith, all, here), cc (same, kept_v))
list_takes a [] (w ∷ ws) h = absurd h
list_takes a (v ∷ vs) [] h = absurd h

list_refuses :
    (a : Annotation) (before after : List Json) (v : Json)
    → deep a v ≡ false
    → all_items (deep a) (items (before ++ v ∷ after)) ≡ false
list_refuses a [] after v h = rw h refl
list_refuses a (b ∷ before) after v h = ground (arith, list_refuses a before after v h)

pub sample-IsPydantic : IsPydantic sample
sample-IsPydantic = record {
  str_text = λ s. refl;
  str_object = λ values. refl;
  int_int = λ v h. ground (arith, h);
  float_float = λ v h. absurd (ground (arith, h));
  nothing_null = refl;
  nothing_object = λ values. refl;
  keeps_left = λ a b v h. ground (arith, h);
  keeps_right = λ a b v h. ground (arith, h);
  takes_left = λ a b v w h k. ground (arith, h);
  takes_none = λ a b v h k. ground (arith, h, k);
  list_takes = λ a vs ws h. let (all, same) = list_takes a vs ws h in rw (all, same) refl;
  list_refuses = λ a before after v h. rw (list_refuses a before after v (ground (arith, h))) refl;
  model_takes = λ m values e h. (
    values,
    rw (pairs-entries values, all_fit-Takes values (fields m) (agrees m e) h) refl,
    λ key. kept values (fields m) key h,
  );
  model_refuses = λ m values e h.
      rw (pairs-entries values, all_fit-Refuses values (fields m) (agrees m e) h) refl;
}
