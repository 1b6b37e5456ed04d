-- ===== src/Web/Schemas/Echo.antt =====
-- What a model keeps of the values that it is made of (tr_bridge/adapters/web/schemas.py).
use text.Mathlib.Text.{◌==◌ as str_eq}
use text.Mathlib.TextEquality.{eq_iff}
use trade_republic_bridge.Base.{
  String, ◌≡◌, ◌≢◌, refl, sym, subst, ◌∙◌, true, false, Option, none, some, List, [], ◌∷◌, All, inl,
  inr, Bool-cases, ◌⊎◌,
}
use trade_republic_bridge.Registry.{lookup}
use trade_republic_bridge.Web.Schemas.{
  Annotation, str, int, float, nothing, one_of, Field, Pydantic, IsPydantic, dumped, Takes,
}

module _ (py : Pydantic) (laws : IsPydantic py) where
  open py use {Value}

  abbrev Dict : Type 0
  Dict = List (String × Value)

  -- A value that is of the annotated type as it is.
  pub data IsExact : Annotation → Value → Type 0 where
    a_text : (s : String) → IsExact str (py.text s)
    an_int : (v : Value) → py.is_int v ≡ true → IsExact int v
    a_float : (v : Value) → py.is_float v ≡ true → IsExact float v
    a_null : IsExact nothing py.null
    at_left : (a b : Annotation) (v : Value) → IsExact a v → IsExact (one_of a b) v
    at_right : (a b : Annotation) (v : Value) → IsExact b v → IsExact (one_of a b) v

  pub dump-IsExact : {a : Annotation} {v : Value} → IsExact a v → py.dump a v ≡ some v
  dump-IsExact (a_text s) = laws.str_text s
  dump-IsExact (an_int v e) = laws.int_int v e
  dump-IsExact (a_float v e) = laws.float_float v e
  dump-IsExact a_null = laws.nothing_null
  dump-IsExact (at_left a b v e) = laws.keeps_left a b v (dump-IsExact e)
  dump-IsExact (at_right a b v e) = laws.keeps_right a b v (dump-IsExact e)

  -- A field that is absent and may be, or that has a value of its type.
  abbrev pub IsPlain : Field → Option Value → Type 0
  IsPlain f none = f.is_required ≡ false
  IsPlain f (some v) = IsExact f.annotation v

  IsPlain-Takes : (f : Field) (o : Option Value) → IsPlain f o → Takes py f o
  IsPlain-Takes f none h = h
  IsPlain-Takes f (some v) h = (v, dump-IsExact h)

  pub All-Takes :
      (values : Dict) (fs : List Field)
      → All (λ f. IsPlain f (lookup f.name values)) fs
      → All (λ f. Takes py f (lookup f.name values)) fs
  All-Takes values [] h = tt
  All-Takes values (f ∷ fs) h =
      (IsPlain-Takes f (lookup f.name values) h.0, All-Takes values fs h.1)

  -- What a field makes of the value that is there.
  abbrev pub made : Field → Option Value → Option Value
  made f o = elim o [ none ↦ none | some v ↦ py.dump f.annotation v ]

  made-IsPlain : (f : Field) (o : Option Value) → IsPlain f o → made f o ≡ o
  made-IsPlain f none h = refl
  made-IsPlain f (some v) h = dump-IsExact h

  made-at :
      (values : Dict) (f : Field) {key : String}
      → f.name ≡ key
      → IsPlain f (lookup f.name values)
      → made f (lookup key values) ≡ lookup key values
  made-at values f here h =
      subst (λ k. made f (lookup k values) ≡ lookup k values) here
        (made-IsPlain f (lookup f.name values) h)

  -- A field that is plain, or that has this name and can be made of its value.
  abbrev pub IsGood : String → Dict → Field → Type 0
  IsGood name values f =
      IsPlain f (lookup f.name values) ⊎ ((f.name ≡ name) × Takes py f (lookup f.name values))

  IsGood-Takes :
      (name : String) (values : Dict) (f : Field)
      → IsGood name values f
      → Takes py f (lookup f.name values)
  IsGood-Takes name values f (inl plain) = IsPlain-Takes f (lookup f.name values) plain
  IsGood-Takes name values f (inr (same, takes)) = takes

  pub All-IsGood :
      (name : String) (values : Dict) (fs : List Field)
      → All (IsGood name values) fs
      → All (λ f. Takes py f (lookup f.name values)) fs
  All-IsGood name values [] h = tt
  All-IsGood name values (f ∷ fs) h =
      (IsGood-Takes name values f h.0, All-IsGood name values fs h.1)

  made_other :
      (name : String) (values : Dict) (f : Field) {key : String}
      → key ≢ name
      → f.name ≡ key
      → IsGood name values f
      → made f (lookup key values) ≡ lookup key values
  made_other name values f n here (inl plain) = made-at values f here plain
  made_other name values f n here (inr (same, takes)) = absurd (n (sym here ∙ same))

  -- A model whose fields are good keeps what stands at every other key.
  pub dumped-other :
      (name : String) (values : Dict) (fs : List Field) (key : String)
      → key ≢ name
      → All (IsGood name values) fs
      → dumped py fs values key ≡ lookup key values
  dumped-other name values [] key n h = refl
  dumped-other name values (f ∷ fs) key n h = elim (Bool-cases (str_eq f.name key)) [
    | inl same ↦ rw same (made_other name values f n ((eq_iff f.name key).0 same) h.0)
    | inr other ↦ rw other (dumped-other name values fs key n h.1)
  ]

  pub dumped-IsPlain :
      (values : Dict) (fs : List Field) (key : String)
      → All (λ f. IsPlain f (lookup f.name values)) fs
      → dumped py fs values key ≡ lookup key values
  dumped-IsPlain values [] key h = refl
  dumped-IsPlain values (f ∷ fs) key h = elim (Bool-cases (str_eq f.name key)) [
    | inl same ↦ rw same (made-at values f ((eq_iff f.name key).0 same) h.0)
    | inr other ↦ rw other (dumped-IsPlain values fs key h.1)
  ]
