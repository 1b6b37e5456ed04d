-- ===== src/Registry/Lookup.antt =====
-- A dict after one entry is written (tr_bridge/instance_registry.py: `_sessions`).
use text.Mathlib.Text.{◌==◌ as str_eq}
use text.Mathlib.TextEquality.{eq_iff}
use text.Mathlib.TextPositions.{eq_refl}
use trade_republic_bridge.Base.{
  String, ◌≡◌, ◌≢◌, some, List, [], ◌∷◌, arith, sym, ◌∙◌, Bool-cases, inl, inr,
}
use trade_republic_bridge.Registry.{insert, lookup}

module _ {V : Type 0} where
  pub lookup-insert_self :
      (key : String) (v : V) (d : List (String × V)) → lookup key (insert key v d) ≡ some v
  lookup-insert_self key v [] = ground (arith, eq_refl key)
  lookup-insert_self key v (e ∷ d) = ground (arith, lookup-insert_self key v d, eq_refl key)

  pub lookup-insert_other :
      (key other : String) (v : V) (d : List (String × V))
      → other ≢ key
      → lookup other (insert key v d) ≡ lookup other d
  lookup-insert_other key other v [] n = ground (arith, eq_iff key other)
  lookup-insert_other key other v (e ∷ d) n = ground (
    arith,
    lookup-insert_other key other v d n,
    eq_iff key other,
    eq_iff e.0 key,
    eq_iff e.0 other,
  )

  -- What stands there already can be written again.
  pub lookup-insert_same :
      (key other : String) (v : V) (d : List (String × V))
      → lookup key d ≡ some v
      → lookup other (insert key v d) ≡ lookup other d
  lookup-insert_same key other v d e = elim (Bool-cases (str_eq other key)) [
    | inl same ↦
        let at_key : other ≡ key = (eq_iff other key).0 same in
        rw at_key (lookup-insert_self key v d ∙ sym e)
    | inr differs ↦
        lookup-insert_other key other v d
          (λ at_key. ground (arith, differs, eq_iff other key, at_key))
  ]
