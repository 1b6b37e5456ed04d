-- ===== src/Web/Schemas/Events.antt =====
-- What a timeline event becomes in a response (tr_bridge/adapters/web/schemas.py: `TimelineEvent`).
use trade_republic_bridge.Base.{
  String, ◌≡◌, ◌≢◌, refl, sym, subst, ◌∙◌, true, false, Option, none, some, List, [], ◌∷◌, map, ok,
  All, inl, inr,
}
use trade_republic_bridge.Registry.{lookup}
use trade_republic_bridge.Web.Schemas.{
  timeline_event, timeline_event_amount, str, int, float, nothing, one_of, instance_of, Field,
  fields, Pydantic, IsPydantic, validate_events, Pairwise, Takes,
}
use trade_republic_bridge.Web.Schemas.Echo.{
  a_text, an_int, a_float, a_null, at_left, at_right, dump-IsExact, IsPlain, All-Takes, made,
  IsGood, All-IsGood, dumped-other, dumped-IsPlain,
}

module _ (py : Pydantic) where
  open py use {Value}

  abbrev Dict : Type 0
  Dict = List (String × Value)

  -- A text.
  pub data IsText : Option Value → Type 0 where
    is_text : (s : String) → IsText (some (py.text s))

  -- Absent, null, or a text.
  pub data IsOptionalText : Option Value → Type 0 where
    no_text : IsOptionalText none
    null_text : IsOptionalText (some py.null)
    some_text : (s : String) → IsOptionalText (some (py.text s))

  -- Absent, null, or a number or a text.
  pub data IsOptionalNumber : Option Value → Type 0 where
    no_number : IsOptionalNumber none
    null_number : IsOptionalNumber (some py.null)
    some_float : (v : Value) → py.is_float v ≡ true → IsOptionalNumber (some v)
    some_int : (v : Value) → py.is_int v ≡ true → IsOptionalNumber (some v)
    in_text : (s : String) → IsOptionalNumber (some (py.text s))

  -- Absent, null, or a dict with a `value` and a `currency` of their types. Other keys may have any
  -- values.
  pub data IsAmount : Option Value → Type 0 where
    no_amount : IsAmount none
    null_amount : IsAmount (some py.null)
    some_amount :
        (a : Dict)
        → IsOptionalNumber (lookup "value" a)
        → IsOptionalText (lookup "currency" a)
        → IsAmount (some (py.object a))

  -- The keys that an event has to have, and those that it may have. Other keys may have any values.
  pub record IsEvent (values : Dict) : Type 0 where
    pub id : IsText (lookup "id" values)
    pub timestamp : IsText (lookup "timestamp" values)
    pub source : IsOptionalText (lookup "source" values)
    pub title : IsOptionalText (lookup "title" values)
    pub subtitle : IsOptionalText (lookup "subtitle" values)
    pub amount : IsAmount (lookup "amount" values)
    pub event_type : IsOptionalText (lookup "eventType" values)
    pub status : IsOptionalText (lookup "status" values)

  -- The same value, or a dict with the same value for every key.
  pub data IsEcho : Option Value → Option Value → Type 0 where
    as_is : (o : Option Value) → IsEcho o o
    keyed :
        (a b : Dict)
        → ((key : String) → lookup key b ≡ lookup key a)
        → IsEcho (some (py.object a)) (some (py.object b))

  -- Every key has the value that it had, or, for `amount`, a dict with the same value for every key,
  -- and no key is added or lost.
  pub record IsSame (values out : Dict) : Type 0 where
    pub others : (key : String) → key ≢ "amount" → lookup key out ≡ lookup key values
    pub amount : IsEcho (lookup "amount" values) (lookup "amount" out)

  module _ (laws : IsPydantic py) where
    abbrev text_field : String → Field
    text_field name = record { name = name; annotation = str; is_required = true }

    abbrev optional_field : String → Field
    optional_field name = record {
      name = name;
      annotation = one_of str nothing;
      is_required = false;
    }

    abbrev number_field : Field
    number_field = record {
      name = "value";
      annotation = one_of (one_of float (one_of int str)) nothing;
      is_required = false;
    }

    IsText-IsPlain :
        (name : String) (o : Option Value) → IsText o → IsPlain py laws (text_field name) o
    IsText-IsPlain name _ (is_text s) = a_text s

    IsOptionalText-IsPlain :
        (name : String) (o : Option Value)
        → IsOptionalText o
        → IsPlain py laws (optional_field name) o
    IsOptionalText-IsPlain name _ no_text = refl
    IsOptionalText-IsPlain name _ null_text = at_right str nothing py.null a_null
    IsOptionalText-IsPlain name _ (some_text s) = at_left str nothing (py.text s) (a_text s)

    IsOptionalNumber-IsPlain :
        (o : Option Value) → IsOptionalNumber o → IsPlain py laws number_field o
    IsOptionalNumber-IsPlain _ no_number = refl
    IsOptionalNumber-IsPlain _ null_number = at_right _ _ _ a_null
    IsOptionalNumber-IsPlain _ (some_float v e) = at_left _ _ _ (at_left _ _ _ (a_float v e))
    IsOptionalNumber-IsPlain _ (some_int v e) =
        at_left _ _ _ (at_right _ _ _ (at_left _ _ _ (an_int v e)))
    IsOptionalNumber-IsPlain _ (in_text s) =
        at_left _ _ _ (at_right _ _ _ (at_right _ _ _ (a_text s)))

    abbrev amount_field : Field
    amount_field = record {
      name = "amount";
      annotation = one_of (instance_of timeline_event_amount) nothing;
      is_required = false;
    }

    -- What the field makes of an amount.
    amount_made :
        (o : Option Value)
        → IsAmount o
        → Takes py amount_field o × IsEcho o (made py laws amount_field o)
    amount_made _ no_amount = (refl, as_is none)
    amount_made _ null_amount =
        let same =
          dump-IsExact py laws
            (at_right (instance_of timeline_event_amount) nothing py.null a_null) in
        ((py.null, same), rw same (as_is (some py.null)))
    amount_made _ (some_amount a value currency) =
        let plain : All (λ f. IsPlain py laws f (lookup f.name a)) (fields timeline_event_amount) =
          (
            IsOptionalNumber-IsPlain (lookup "value" a) value,
            (IsOptionalText-IsPlain "currency" (lookup "currency" a) currency, tt),
          ) in
        let (b, dumps, keys) =
          laws.model_takes timeline_event_amount a refl
            (All-Takes py laws a (fields timeline_event_amount) plain) in
        let same =
          laws.takes_left (instance_of timeline_event_amount) nothing (py.object a) (py.object b)
            dumps (laws.nothing_object a) in
        (
          (py.object b, same),
          rw same (
              keyed a b (λ key.
                keys key ∙ dumped-IsPlain py laws a (fields timeline_event_amount) key plain)),
        )

    -- The fields of an event, in the order in which they are declared.
    fields-IsGood :
        (values : Dict)
        → IsEvent values
        → Takes py amount_field (lookup "amount" values)
        → All (IsGood py laws "amount" values) (fields timeline_event)
    fields-IsGood values e takes =
        let required : (name : String)
            → IsText (lookup name values)
            → IsGood py laws "amount" values (text_field name) =
          λ name h. inl (IsText-IsPlain name (lookup name values) h) in
        let optional : (name : String)
            → IsOptionalText (lookup name values)
            → IsGood py laws "amount" values (optional_field name) =
          λ name h. inl (IsOptionalText-IsPlain name (lookup name values) h) in
        (
          required "id" e.id,
          (
            required "timestamp" e.timestamp,
            (
              optional "source" e.source,
              (
                optional "title" e.title,
                (
                  optional "subtitle" e.subtitle,
                  (
                    inr (refl, takes),
                    (optional "eventType" e.event_type, (optional "status" e.status, tt)),
                  ),
                ),
              ),
            ),
          ),
        )

    event_echoed :
        (values : Dict)
        → IsEvent values
        → (out : Dict) × (py.dump (instance_of timeline_event) (py.object values)
            ≡ some (py.object out))
          × IsSame values out
    event_echoed values e =
        let (takes, echo) = amount_made (lookup "amount" values) e.amount in
        let good = fields-IsGood values e takes in
        let (out, dumps, keys) =
          laws.model_takes timeline_event values refl
            (All-IsGood py laws "amount" values (fields timeline_event) good) in
        (
          out,
          dumps,
          record {
            others = λ key n.
                keys key ∙ dumped-other py laws "amount" values (fields timeline_event) key n good;
            amount = subst (IsEcho (lookup "amount" values)) (sym (keys "amount")) echo;
          },
        )

    each_echoed :
        (events : List Dict)
        → All IsEvent events
        → (outs : List Dict) × Pairwise
            (λ v w. py.dump (instance_of timeline_event) v ≡ some w)
            (map py.object events)
            (map py.object outs)
          × Pairwise IsSame events outs
    each_echoed [] h = ([], tt, tt)
    each_echoed (values ∷ events) h =
        let (out, dumps, same) = event_echoed values h.0 in
        let (outs, all_dump, all_same) = each_echoed events h.1 in
        (out ∷ outs, (dumps, all_dump), (same, all_same))

    -- Events with a text `id` and `timestamp`, whose other declared keys, those of their `amount`
    -- included, are absent, null or of their types, and whose further keys may have any values, pass
    -- the validation of the response and go into it one for one and in their order: every key of an
    -- event has the value that it had, or, for `amount`, a dict with the same value for every key, and
    -- no key is added or lost.
    pub events_echoed :
        (events : List Dict)
        → All IsEvent events
        → (outs : List Dict) × (validate_events py events ≡ ok (py.array (map py.object outs)))
          × Pairwise IsSame events outs
    unfolding validate_events
    events_echoed events h =
        let (outs, dumps, same) = each_echoed events h in
        let taken =
          laws.list_takes (instance_of timeline_event) (map py.object events) (map py.object outs)
            dumps in
        (outs, rw taken refl, same)
