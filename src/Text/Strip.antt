-- ===== src/Text/Strip.antt =====
-- Stripping a text twice is stripping it once.
use trade_republic_bridge.Base.{
  ℕ, Char, code, String, ◌≡◌, refl, Bool, false, arith, Bool-cases, inl, inr,
}
use trade_republic_bridge.Text.{
  is_space, lstrip, rstrip_cons, rstrip, strip, EndsOutside, StartsOutside,
}

rstrip_cons-EndsOutside :
    (p : ℕ → Bool) (c : Char) (s : String) → EndsOutside p s → EndsOutside p (rstrip_cons p c s)
rstrip_cons-EndsOutside p c String.[] h = elim (Bool-cases (p (code c))) [
  | inl e ↦ rw e tt
  | inr e ↦ rw e e
]
rstrip_cons-EndsOutside p c (String.◌∷◌ d s) h = h

rstrip-EndsOutside : (p : ℕ → Bool) (s : String) → EndsOutside p (rstrip p s)
rstrip-EndsOutside p String.[] = tt
rstrip-EndsOutside p (String.◌∷◌ c s) =
    rstrip_cons-EndsOutside p c (rstrip p s) (rstrip-EndsOutside p s)

-- Stripping a text that has nothing to strip changes nothing.
rstrip_of_EndsOutside : (p : ℕ → Bool) (s : String) → EndsOutside p s → rstrip p s ≡ s
rstrip_of_EndsOutside p String.[] h = refl
rstrip_of_EndsOutside p (String.◌∷◌ c String.[]) h = ground arith
rstrip_of_EndsOutside p (String.◌∷◌ c (String.◌∷◌ d s)) h =
    ground (arith, rstrip_of_EndsOutside p (String.◌∷◌ d s) h)

lstrip-StartsOutside : (p : ℕ → Bool) (s : String) → StartsOutside p (lstrip p s)
lstrip-StartsOutside p String.[] = tt
lstrip-StartsOutside p (String.◌∷◌ c s) = elim (Bool-cases (p (code c))) [
  | inl e ↦ rw e (lstrip-StartsOutside p s)
  | inr e ↦ rw e e
]

lstrip_of_StartsOutside : (p : ℕ → Bool) (s : String) → StartsOutside p s → lstrip p s ≡ s
lstrip_of_StartsOutside p String.[] h = refl
lstrip_of_StartsOutside p (String.◌∷◌ c s) h = rw h

rstrip_cons-StartsOutside :
    (p : ℕ → Bool) (c : Char) (s : String)
    → p (code c) ≡ false
    → StartsOutside p (rstrip_cons p c s)
rstrip_cons-StartsOutside p c String.[] h = rw h h
rstrip_cons-StartsOutside p c (String.◌∷◌ d s) h = h

rstrip-StartsOutside :
    (p : ℕ → Bool) (s : String) → StartsOutside p s → StartsOutside p (rstrip p s)
rstrip-StartsOutside p String.[] h = tt
rstrip-StartsOutside p (String.◌∷◌ c s) h = rstrip_cons-StartsOutside p c (rstrip p s) h

-- A stripped text has nothing left to strip.
pub strip_idem : (s : String) → strip (strip s) ≡ strip s
unfolding strip
strip_idem s =
    let inner = lstrip is_space s in
    rw
      (lstrip_of_StartsOutside is_space (rstrip is_space inner)
        (rstrip-StartsOutside is_space inner (lstrip-StartsOutside is_space s)))
      (rstrip_of_EndsOutside is_space (rstrip is_space inner) (rstrip-EndsOutside is_space inner))

pub strip-EndsOutside : (s : String) → EndsOutside is_space (strip s)
unfolding strip
strip-EndsOutside s = rstrip-EndsOutside is_space (lstrip is_space s)

strip_test : strip " \t\nab c\n" ≡ "ab c"
unfolding strip
strip_test = refl
