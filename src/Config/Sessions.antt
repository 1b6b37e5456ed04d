-- ===== src/Config/Sessions.antt =====
-- The session directory of an instance (tr_bridge/config.py: `session_dir`).
use text.Mathlib.TextEquality.{eq_iff}
use text.Mathlib.TextLemmas.{append_cancel_left}
use text.Mathlib.Text.{◌==◌ as str_eq}
use trade_republic_bridge.Base.{
  ℕ, String, ◌≡◌, refl, true, false, List, [], ◌∷◌, ok, arith, All, Bool-cases, inl, inr,
}
use trade_republic_bridge.Text.{◌<>◌, has_char, all_chars}
use trade_republic_bridge.Config.{Config, contains, names, instance_names, session_dir}
use trade_republic_bridge.Config.Entry.{InstanceConfig, is_name_char}
use trade_republic_bridge.Config.Instance.{IsInstance}
use trade_republic_bridge.Config.Valid.{IsConfig}

-- A text of name characters holds no other character.
all_name-no_char :
    (a : ℕ) (s : String)
    → is_name_char a ≡ false
    → all_chars is_name_char s ≡ true
    → has_char a s ≡ false
all_name-no_char a String.[] bad h = refl
all_name-no_char a (String.◌∷◌ c s) bad h = ground (arith, all_name-no_char a s bad)

contained-all_chars :
    (name : String) (is : List InstanceConfig)
    → All IsInstance is
    → contains name (names is) ≡ true
    → all_chars is_name_char name ≡ true
contained-all_chars name [] h e = cc
contained-all_chars name (i ∷ is) h e = elim (Bool-cases (str_eq name i.name)) [
  | inl same ↦ rw ((eq_iff name i.name).0 same) h.0.name_chars
  | inr other ↦ contained-all_chars name is h.1 (rw other at e)
]

-- In a valid configuration the directory of an instance lies directly in the data root: what is
-- added to the root is `/tr_session_` and a name without `/` and without `.`.
pub session_dir-contained :
    (c : Config) (name : String) {dir : String}
    → IsConfig c
    → session_dir c name ≡ ok dir
    → (dir ≡ c.data_root <> "/tr_session_" <> name)
      × (contains name (instance_names c) ≡ true)
      × (has_char b'/' name ≡ false)
      × (has_char b'.' name ≡ false)
unfolding session_dir
session_dir-contained c name v e = elim (Bool-cases (contains name (instance_names c))) [
  | inl known ↦
      let chars = contained-all_chars name c.instances v.instances known in
      (
        ground arith,
        known,
        all_name-no_char b'/' name refl chars,
        all_name-no_char b'.' name refl chars,
      )
  | inr unknown ↦ absurd (ground arith)
]

-- Two instances never share a directory.
session_dir_injective :
    (c : Config) (a b : String) {dir : String}
    → session_dir c a ≡ ok dir
    → session_dir c b ≡ ok dir
    → a ≡ b
unfolding session_dir
session_dir_injective c a b {dir} p q =
    let same : c.data_root <> ("/tr_session_" <> a) ≡ c.data_root <> ("/tr_session_" <> b) =
      ground arith in
    append_cancel_left "/tr_session_" a b (append_cancel_left c.data_root _ _ same)
