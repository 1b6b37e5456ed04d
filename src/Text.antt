-- ===== src/Text.antt =====
-- What the program uses of Python's `str`: `strip`, `rstrip`, `replace`, `in`, `join` and `isascii`,
-- over the code points of a text.
pub mod Strip
pub mod Replace
use Prim.Native.String
use trade_republic_bridge.Base.{
  zero, suc, ◌-◌, ℕ, Char, code, String, ◌≡◌, Bool, true, false, ◌&&◌, ◌||◌, List, [], ◌∷◌, ltb,
  leb, ◌==◌, if◌then◌else◌,
}

-- The code points for which `str.isspace` holds: what `strip()` removes.
unfoldable pub is_space : ℕ → Bool
is_space c =
    (leb 0x09 c && leb c 0x0d)
    || (leb 0x1c c && leb c 0x20)
    || c == 0x85
    || c == 0xa0
    || c == 0x1680
    || (leb 0x2000 c && leb c 0x200a)
    || c == 0x2028
    || c == 0x2029
    || c == 0x202f
    || c == 0x205f
    || c == 0x3000

abbrev pub is_empty : String → Bool
is_empty String.[] = true
is_empty (String.◌∷◌ c s) = false

abbrev pub lstrip : (ℕ → Bool) → String → String
lstrip p String.[] = String.[]
lstrip p (String.◌∷◌ c s) = if p (code c) then lstrip p s else String.◌∷◌ c s

-- Put `c` before a text that is stripped on its right.
abbrev pub rstrip_cons : (ℕ → Bool) → Char → String → String
rstrip_cons p c String.[] = if p (code c) then String.[] else String.◌∷◌ c String.[]
rstrip_cons p c (String.◌∷◌ d s) = String.◌∷◌ c (String.◌∷◌ d s)

abbrev pub rstrip : (ℕ → Bool) → String → String
rstrip p String.[] = String.[]
rstrip p (String.◌∷◌ c s) = rstrip_cons p c (rstrip p s)

-- `s.strip()`
unfoldable pub strip : String → String
unfolding is_space
strip s = rstrip is_space (lstrip is_space s)

-- `s.replace(a, b)` for two characters
abbrev pub replace_char : ℕ → Char → String → String
replace_char a b String.[] = String.[]
replace_char a b (String.◌∷◌ c s) = String.◌∷◌ (if code c == a then b else c) (replace_char a b s)

-- `c in s` for a character
abbrev pub has_char : ℕ → String → Bool
has_char a String.[] = false
has_char a (String.◌∷◌ c s) = code c == a || has_char a s

abbrev pub all_chars : (ℕ → Bool) → String → Bool
all_chars p String.[] = true
all_chars p (String.◌∷◌ c s) = p (code c) && all_chars p s

abbrev pub is_ascii : String → Bool
is_ascii = all_chars (λ c. ltb c 128)

infixr 66 ◌<>◌
abbrev pub ◌<>◌ : String → String → String
s <> t = String.◌++◌ s t

-- `sep.join(parts)`
abbrev pub join : String → List String → String
join sep [] = ""
join sep (s ∷ []) = s
join sep (s ∷ t ∷ parts) = s <> sep <> join sep (t ∷ parts)

-- A text that ends in no character of `p`.
abbrev pub EndsOutside : (ℕ → Bool) → String → Type 0
EndsOutside p String.[] = Unit
EndsOutside p (String.◌∷◌ c String.[]) = p (code c) ≡ false
EndsOutside p (String.◌∷◌ c (String.◌∷◌ d s)) = EndsOutside p (String.◌∷◌ d s)

-- A text that begins with no character of `p`.
abbrev pub StartsOutside : (ℕ → Bool) → String → Type 0
StartsOutside p String.[] = Unit
StartsOutside p (String.◌∷◌ c s) = p (code c) ≡ false

-- `s.startswith(prefix)`
abbrev has_prefix : String → String → Bool
has_prefix String.[] s = true
has_prefix (String.◌∷◌ a p) String.[] = false
has_prefix (String.◌∷◌ a p) (String.◌∷◌ c s) = code c == code a && has_prefix p s

-- `s.replace(old, new)`; `skip` counts the characters of a match that are still to be passed over.
abbrev replace_from : String → String → ℕ → ℕ → String → String
replace_from old new width skip String.[] = String.[]
replace_from old new width (suc skip) (String.◌∷◌ c s) = replace_from old new width skip s
replace_from old new width zero (String.◌∷◌ c s) =
    let matched = new <> replace_from old new width (width - 1) s in
    let kept = String.◌∷◌ c (replace_from old new width zero s) in
    if has_prefix old (String.◌∷◌ c s) then matched else kept

unfoldable pub replace : String → String → String → String
replace old new s = replace_from old new (String.count old) 0 s
