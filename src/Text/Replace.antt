-- ===== src/Text/Replace.antt =====
-- Replacing in a text that begins with nothing to replace.
use text.Mathlib.TextLemmas.{nil-append, cons-append}
use trade_republic_bridge.Base.{ap, ℕ, Char, code, String, ◌≡◌, false, arith, ◌==◌}
use trade_republic_bridge.Text.{has_char, ◌<>◌, replace_from, replace}

-- A text whose first character stands nowhere in `body` is replaced after it only.
replace_from-append :
    (a : Char) (old new : String) (width : ℕ) (body rest : String)
    → has_char (code a) body ≡ false
    → replace_from (String.◌∷◌ a old) new width 0 (body <> rest)
      ≡ body <> replace_from (String.◌∷◌ a old) new width 0 rest
replace_from-append a old new width String.[] rest h = simp nil-append
replace_from-append a old new width (String.◌∷◌ c body) rest h =
    let other : (code c == code a) ≡ false = ground arith in
    simp (cons-append, other)
      (ap (String.◌∷◌ c) (replace_from-append a old new width body rest (ground arith)))

pub replace-append :
    (a : Char) (old new body rest : String)
    → has_char (code a) body ≡ false
    → replace (String.◌∷◌ a old) new (body <> rest) ≡ body <> replace (String.◌∷◌ a old) new rest
unfolding replace
replace-append a old new body rest h = replace_from-append a old new _ body rest h
