-- ===== src/Config/Listing.antt =====
-- Which fault a list of instances is refused with (tr_bridge/config.py: `_parse_instances`).
use trade_republic_bridge.Base.{
  String, ◌≡◌, ap, subst, ◌∙◌, Option, some, refl, List, [], ◌∷◌, err, arith, Result-cases, inl,
  inr, ◌≢◌,
}
use trade_republic_bridge.Config.{
  check_mappings, parse_items, names, parse_entries, parse_listed, instances_missing,
  check_duplicates,
}
use trade_republic_bridge.Config.Entry.{Fault, InstanceConfig}
use trade_republic_bridge.Config.Yaml.{Value, list, dict, Items, nil, cons}
use trade_republic_bridge.Config.Mappings.{
  AreMappings, AreMappings-to, AreMappings-from, NotMapping, NotMapping-to, NotMapping-from,
}
use trade_republic_bridge.Config.Repeats.{duplicate, Repeats, check_duplicates_fault_iff}
use trade_republic_bridge.Config.Reasons.{ItemsFault, ItemsFault-to, ItemsFault-from}
use trade_republic_bridge.Config.Accepts.{DescribesItems, parse_items_to, parse_items_from}

-- The fault of the value of `instances`: it must be a list with an entry, then every entry a mapping,
-- then each entry is looked at, and the names last.
pub data ListingFault : Option Value → Fault → Type 0 where
  no_list :
      (v : Option Value)
      → ((item : Value) (items : Items) → v ≢ some (list (cons item items)))
      → ListingFault v instances_missing
  no_mapping :
      (item : Value) (items : Items) (f : Fault)
      → NotMapping 0 (cons item items) f
      → ListingFault (some (list (cons item items))) f
  bad_entry :
      (item : Value) (items : Items) (f : Fault)
      → AreMappings (cons item items)
      → ItemsFault (cons item items) f
      → ListingFault (some (list (cons item items))) f
  repeated :
      (item : Value) (items : Items) (is : List InstanceConfig) (name : String)
      → DescribesItems (cons item items) is
      → Repeats (names is) name
      → ListingFault (some (list (cons item items))) (duplicate name)

entries_fault :
    (item : Value) (items : Items) {f : Fault}
    → parse_entries (cons item items) ≡ err f
    → ListingFault (some (list (cons item items))) f
unfolding parse_entries
entries_fault item items {f} e = elim (Result-cases (check_mappings 0 (cons item items))) [
  | inr (x, bad) ↦
      let same : x ≡ f = cc (rw bad at e) in
      no_mapping item items f (NotMapping-to 0 (cons item items) (bad ∙ ap err same))
  | inl (tt, mapped) ↦ elim (Result-cases (parse_items (cons item items))) [
    | inr (x, bad) ↦
        let same : x ≡ f = cc (rw (mapped, bad) at e) in
        bad_entry item items f (AreMappings-to 0 (cons item items) mapped) (
          ItemsFault-to (cons item items) (AreMappings-to 0 (cons item items) mapped)
            (bad ∙ ap err same))
    | inl (is, parsed) ↦
        let caught : check_duplicates [] (names is) ≡ err f = ground arith in
        let (name, same, repeats) = (check_duplicates_fault_iff (names is) f).0 caught in
        rw same (repeated item items is name (parse_items_to (cons item items) is parsed) repeats)
  ]
]

DescribesItems-AreMappings :
    (items : Items) (is : List InstanceConfig) → DescribesItems items is → AreMappings items
DescribesItems-AreMappings nil is d = tt
DescribesItems-AreMappings (cons (dict item) items) [] d = absurd d
DescribesItems-AreMappings (cons (dict item) items) (i ∷ is) d =
    DescribesItems-AreMappings items is d.1
DescribesItems-AreMappings (cons v items) is d = absurd d

pub ListingFault-to : (v : Option Value) {f : Fault} → parse_listed v ≡ err f → ListingFault v f
unfolding parse_listed
ListingFault-to (some (list (cons item items))) e = entries_fault item items e
ListingFault-to v {f} e =
    let same : instances_missing ≡ f = cc in
    subst (ListingFault v) same (no_list v (λ item items h. cc))

pub ListingFault-from : (v : Option Value) {f : Fault} → ListingFault v f → parse_listed v ≡ err f
unfolding parse_listed parse_entries
ListingFault-from _ (no_list (some (list (cons item items))) h) = absurd (h item items refl)
ListingFault-from _ (no_list v h) = refl
ListingFault-from _ (no_mapping item items f h) =
    ground (arith, NotMapping-from 0 (cons item items) h)
ListingFault-from _ (bad_entry item items f m h) =
    ground (arith, AreMappings-from 0 (cons item items) m, ItemsFault-from (cons item items) h)
ListingFault-from _ (repeated item items is name d repeats) = ground (
  arith,
  AreMappings-from 0 (cons item items) (DescribesItems-AreMappings (cons item items) is d),
  parse_items_from (cons item items) is d,
  (check_duplicates_fault_iff (names is) (duplicate name)).1 (name, refl, repeats),
)
