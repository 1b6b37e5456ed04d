-- ===== src/Config/Repeats.antt =====
-- Which name is reported as a duplicate (tr_bridge/config.py: the loop over `names`).
use trade_republic_bridge.Base.{
  String, ◌≡◌, ◌↔◌, refl, ap, true, false, List, [], ◌∷◌, ◌++◌, err, ◌⊎◌, inl, inr, arith,
  Bool-cases,
}
use trade_republic_bridge.Domain.{lit, quoted}
use trade_republic_bridge.Config.{contains, check_duplicates}
use trade_republic_bridge.Config.Entry.{Fault, config_error}
use trade_republic_bridge.Config.Names.{
  IsDistinct, Unseen, Unseen-cons, Unseen-contains, Unseen-extend, Unseen-nil,
}

abbrev pub duplicate : String → Fault
duplicate name = config_error (lit "Duplicate instance name: " ∷ quoted name ∷ [])

-- Some name stands before in the list or was seen, and no earlier name did.
record Again (seen xs : List String) (name : String) : Type 0 where
  before : List String
  after : List String
  split : xs ≡ before ++ name ∷ after
  known : (contains name seen ≡ true) ⊎ (contains name before ≡ true)
  fresh : Unseen seen before
  distinct : IsDistinct before

Again-cons :
    (x : String) (seen xs : List String) (name : String)
    → contains x seen ≡ false
    → Again (x ∷ seen) xs name
    → Again seen (x ∷ xs) name
Again-cons x seen xs name new a = record {
  before = x ∷ a.before;
  after = a.after;
  split = ap (◌∷◌ x) a.split;
  known = elim a.known [
    | inr h ↦ inr (ground arith)
    | inl h ↦ elim (Bool-cases (contains name seen)) [
      | inl old ↦ inl old
      | inr other ↦ inr (ground arith)
    ]
  ];
  fresh = (new, Unseen-cons x seen a.before a.fresh);
  distinct = (Unseen-contains x seen a.before a.fresh, a.distinct);
}

Again-to :
    (seen xs : List String) {f : Fault}
    → check_duplicates seen xs ≡ err f
    → (name : String) × (f ≡ duplicate name) × Again seen xs name
unfolding check_duplicates
Again-to seen [] e = cc
Again-to seen (x ∷ xs) e = elim (Bool-cases (contains x seen)) [
  | inl old ↦ (
    x,
    ground arith,
    record { before = []; after = xs; split = refl; known = inl old; fresh = tt; distinct = tt },
  )
  | inr new ↦
      let (name, same, a) = Again-to (x ∷ seen) xs (rw new at e) in
      (name, same, Again-cons x seen xs name new a)
]

moved :
    (x : String) (seen before : List String) (name : String)
    → (contains name seen ≡ true) ⊎ (contains name (x ∷ before) ≡ true)
    → (contains name (x ∷ seen) ≡ true) ⊎ (contains name before ≡ true)
moved x seen before name (inl h) = inl (ground arith)
moved x seen before name (inr h) = elim (Bool-cases (contains name before)) [
  | inl old ↦ inr old
  | inr other ↦ inl (ground arith)
]

stands :
    (name : String) (before : List String)
    → (contains name [] ≡ true) ⊎ (contains name before ≡ true)
    → contains name before ≡ true
stands name before (inl h) = cc
stands name before (inr h) = h

Again-from :
    (seen before after : List String) (name : String)
    → (contains name seen ≡ true) ⊎ (contains name before ≡ true)
    → Unseen seen before
    → IsDistinct before
    → check_duplicates seen (before ++ name ∷ after) ≡ err (duplicate name)
unfolding check_duplicates
Again-from seen [] after name (inl h) u d = rw h refl
Again-from seen [] after name (inr h) u d = cc
Again-from seen (x ∷ before) after name h u d = rw u.0 (
    Again-from (x ∷ seen) before after name (moved x seen before name h)
      (Unseen-extend x seen before d.0 u.1) d.1)

-- The names have a first one that stands before in the list: `name`.
abbrev pub Repeats : List String → String → Type 0
Repeats xs name =
    (before : List String) × (after : List String) × (xs ≡ before ++ name ∷ after)
    × (contains name before ≡ true)
    × IsDistinct before

-- The check reports the first name that stands before in the list.
pub check_duplicates_fault_iff :
    (xs : List String) (f : Fault)
    → (check_duplicates [] xs ≡ err f) ↔ ((name : String) × (f ≡ duplicate name) × Repeats xs name)
check_duplicates_fault_iff xs f = (to, from)
  where
    to : check_duplicates [] xs ≡ err f → (name : String) × (f ≡ duplicate name) × Repeats xs name
    to e =
        let (name, same, a) = Again-to [] xs e in
        (name, same, (a.before, a.after, a.split, stands name a.before a.known, a.distinct))

    from : (name : String) × (f ≡ duplicate name) × Repeats xs name → check_duplicates [] xs ≡ err f
    from (name, same, (before, after, split, known, distinct)) =
        rw (split, same) (Again-from [] before after name (inr known) (Unseen-nil before) distinct)
