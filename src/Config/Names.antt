-- ===== src/Config/Names.antt =====
-- The check for duplicate names (tr_bridge/config.py: the loop over `names` in `_parse_instances`).
use text.Mathlib.Text.{◌==◌ as str_eq}
use text.Mathlib.TextEquality.{eq_iff}
use trade_republic_bridge.Base.{
  String, ◌≡◌, refl, ◌↔◌, false, List, [], ◌∷◌, ok, arith, All, Bool-cases, inl, inr,
}
use trade_republic_bridge.Config.{contains, check_duplicates}

abbrev pub IsDistinct : List String → Type 0
IsDistinct [] = Unit
IsDistinct (x ∷ xs) = (contains x xs ≡ false) × IsDistinct xs

str_eq_sym : (x y : String) → str_eq x y ≡ str_eq y x
str_eq_sym x y = ground (arith, eq_iff x y, eq_iff y x)

-- None of the names is in `seen`.
abbrev pub Unseen : List String → List String → Type 0
Unseen seen = All (λ x. contains x seen ≡ false)

pub Unseen-cons : (x : String) (seen xs : List String) → Unseen (x ∷ seen) xs → Unseen seen xs
Unseen-cons x seen [] h = tt
Unseen-cons x seen (y ∷ ys) h = (ground arith, Unseen-cons x seen ys h.1)

pub Unseen-contains :
    (x : String) (seen xs : List String) → Unseen (x ∷ seen) xs → contains x xs ≡ false
Unseen-contains x seen [] h = refl
Unseen-contains x seen (y ∷ ys) h =
    ground (arith, h.0, str_eq_sym x y, Unseen-contains x seen ys h.1)

check_duplicates_sound :
    (seen xs : List String) → check_duplicates seen xs ≡ ok tt → Unseen seen xs × IsDistinct xs
unfolding check_duplicates
check_duplicates_sound seen [] e = (tt, tt)
check_duplicates_sound seen (x ∷ xs) e = elim (Bool-cases (contains x seen)) [
  | inl old ↦ cc (rw old at e)
  | inr new ↦
      let (unseen, distinct) = check_duplicates_sound (x ∷ seen) xs (rw new at e) in
      ((new, Unseen-cons x seen xs unseen), (Unseen-contains x seen xs unseen, distinct))
]

pub Unseen-extend :
    (x : String) (seen xs : List String)
    → contains x xs ≡ false
    → Unseen seen xs
    → Unseen (x ∷ seen) xs
Unseen-extend x seen [] n h = tt
Unseen-extend x seen (y ∷ ys) n h =
    (ground (arith, str_eq_sym x y), Unseen-extend x seen ys (ground arith) h.1)

check_duplicates_complete :
    (seen xs : List String) → Unseen seen xs → IsDistinct xs → check_duplicates seen xs ≡ ok tt
unfolding check_duplicates
check_duplicates_complete seen [] u d = refl
check_duplicates_complete seen (x ∷ xs) u d =
    rw u.0 (check_duplicates_complete (x ∷ seen) xs (Unseen-extend x seen xs d.0 u.1) d.1)

pub Unseen-nil : (xs : List String) → Unseen [] xs
Unseen-nil [] = tt
Unseen-nil (x ∷ xs) = (refl, Unseen-nil xs)

-- The check passes exactly when no name stands twice.
pub check_duplicates_iff : (xs : List String) → (check_duplicates [] xs ≡ ok tt) ↔ IsDistinct xs
check_duplicates_iff xs =
    (λ e. (check_duplicates_sound [] xs e).1, check_duplicates_complete [] xs (Unseen-nil xs))
