-- ===== src/Window/Timed.antt =====
-- Texts with a separator between date and time (tr_bridge/timewindow.py: `_parse_iso`).
use trade_republic_bridge.Base.{
  ℕ, Char, code, String, ◌≡◌, refl, ◌↔◌, ◌⊎◌, true, false, ◌||◌, ◌&&◌, not, ◌==◌, arith, Bool-cases,
  inl, inr,
}
use trade_republic_bridge.Text.{
  is_space, is_empty, lstrip, rstrip_cons, rstrip, strip, has_char, all_chars,
}
use trade_republic_bridge.Window.{has_time}

-- The character stands in the text.
abbrev pub Has : ℕ → String → Type 0
Has a String.[] = ⊥
Has a (String.◌∷◌ c s) = (code c ≡ a) ⊎ Has a s

-- It stands there, with one that is no white space somewhere after it.
abbrev pub HasBefore : ℕ → String → Type 0
HasBefore a String.[] = ⊥
HasBefore a (String.◌∷◌ c s) = ((code c ≡ a) × (all_chars is_space s ≡ false)) ⊎ HasBefore a s

-- It stands there between two that are no white space.
abbrev pub HasBetween : ℕ → String → Type 0
HasBetween a String.[] = ⊥
HasBetween a (String.◌∷◌ c s) = ((is_space (code c) ≡ false) × HasBefore a s) ⊎ HasBetween a s

-- A `T` or a `t`, or a space that is not at one of the ends.
abbrev pub IsTimed : String → Type 0
IsTimed value = Has b'T' value ⊎ Has b't' value ⊎ HasBetween b' ' value

has_char-Has : (a : ℕ) (s : String) → (has_char a s ≡ true) ↔ Has a s
has_char-Has a String.[] = ((λ e. cc), λ h. absurd h)
has_char-Has a (String.◌∷◌ c s) = (
  λ e. elim (Bool-cases (has_char a s)) [
    | inl rest ↦ inr ((has_char-Has a s).0 rest)
    | inr rest ↦ inl (ground arith)
  ],
  λ h. elim h [ inl same ↦ ground arith | inr rest ↦ ground (arith, (has_char-Has a s).1 rest) ],
)

empty_cons :
    (c : Char) (t : String)
    → is_empty (rstrip_cons is_space c t) ≡ (is_space (code c) && is_empty t)
empty_cons c String.[] = elim (Bool-cases (is_space (code c))) [
  | inl e ↦ rw e refl
  | inr e ↦ rw e refl
]
empty_cons c (String.◌∷◌ d t) = ground arith

-- A text of white space is stripped to nothing, and no other.
rstrip-empty : (s : String) → is_empty (rstrip is_space s) ≡ all_chars is_space s
rstrip-empty String.[] = refl
rstrip-empty (String.◌∷◌ c s) = rw (empty_cons c (rstrip is_space s), rstrip-empty s) refl

module _ (a : ℕ) (blank : is_space a ≡ true) where
  -- A blank `c` before a text that is stripped stays when the text is not empty.
  char_cons :
      (c : Char) (t : String)
      → has_char a (rstrip_cons is_space c t) ≡ ((code c == a && not (is_empty t)) || has_char a t)
  char_cons c String.[] = elim (Bool-cases (is_space (code c))) [
    | inl e ↦ rw e (ground arith)
    | inr e ↦ rw e (ground (arith, blank))
  ]
  char_cons c (String.◌∷◌ d t) = ground arith

  rstrip-HasBefore : (s : String) → (has_char a (rstrip is_space s) ≡ true) ↔ HasBefore a s
  rstrip-HasBefore String.[] = ((λ e. cc), λ h. absurd h)
  rstrip-HasBefore (String.◌∷◌ c s) =
      rw (char_cons c (rstrip is_space s), rstrip-empty s)
        (
          λ e. elim (Bool-cases (has_char a (rstrip is_space s))) [
            | inl rest ↦ inr ((rstrip-HasBefore s).0 rest)
            | inr rest ↦ inl (ground arith, ground arith)
          ],
          λ h. elim h [
            | inl (same, more) ↦ ground arith
            | inr rest ↦ ground (arith, (rstrip-HasBefore s).1 rest)
          ],
        )

  between-before : (s : String) → HasBetween a s → HasBefore a s
  between-before String.[] h = absurd h
  between-before (String.◌∷◌ c s) (inl (_, h)) = inr h
  between-before (String.◌∷◌ c s) (inr h) = inr (between-before s h)

  lstrip-HasBetween : (s : String) → HasBefore a (lstrip is_space s) ↔ HasBetween a s
  lstrip-HasBetween String.[] = ((λ h. h), λ h. h)
  lstrip-HasBetween (String.◌∷◌ c s) = elim (Bool-cases (is_space (code c))) [
    | inl e ↦ rw e (
      λ h. inr ((lstrip-HasBetween s).0 h),
      λ h. elim h [ inl (bad, _) ↦ absurd (cc bad) | inr rest ↦ (lstrip-HasBetween s).1 rest ],
    )
    | inr e ↦ rw e (
      λ h. elim h [ inl (same, _) ↦ absurd (cc (blank, e, same)) | inr rest ↦ inl (refl, rest) ],
      λ h. elim h [ inl (_, rest) ↦ inr rest | inr rest ↦ inr (between-before s rest) ],
    )
  ]

-- The test of the code says just that.
pub has_time-IsTimed : (value : String) → (has_time value ≡ true) ↔ IsTimed value
unfolding strip is_space
has_time-IsTimed value = (
  λ e. elim (Bool-cases (has_char b'T' value)) [
    | inl x ↦ inl ((has_char-Has b'T' value).0 x)
    | inr x ↦ elim (Bool-cases (has_char b't' value)) [
      | inl y ↦ inr (inl ((has_char-Has b't' value).0 y))
      | inr y ↦ inr (
          inr (
            (lstrip-HasBetween b' ' refl value).0
              ((rstrip-HasBefore b' ' refl (lstrip is_space value)).0 (ground arith))))
    ]
  ],
  λ h. elim h [
    | inl x ↦ ground (arith, (has_char-Has b'T' value).1 x)
    | inr (inl y) ↦ ground (arith, (has_char-Has b't' value).1 y)
    | inr (inr z) ↦ ground (
      arith,
      (rstrip-HasBefore b' ' refl (lstrip is_space value)).1
          ((lstrip-HasBetween b' ' refl value).1 z),
    )
  ],
)
