-- ===== src/Web/Auth/Paths.antt =====
-- Which paths are public (tr_bridge/adapters/web/handlers.py: `_PUBLIC_PATHS`).
use text.Mathlib.TextEquality.{eq_iff}
use text.Mathlib.TextLemmas.{cons-append}
use trade_republic_bridge.Base.{
  ℕ, Char, String, ◌≡◌, refl, ◌≢◌, ◌∙◌, true, false, arith, ap, code, List, [], ◌∷◌, All,
}
use trade_republic_bridge.Text.{rstrip, rstrip_cons, ◌<>◌}
use trade_republic_bridge.Config.{contains}
use trade_republic_bridge.Web.Auth.{public_paths, is_slash, or_root, normal_path, is_public}

rstrip-slash : (s : String) → rstrip is_slash (s <> "/") ≡ rstrip is_slash s
rstrip-slash String.[] = refl
rstrip-slash (String.◌∷◌ c s) =
    rw (cons-append c s "/") (ap (rstrip_cons is_slash c) (rstrip-slash s))

-- A slash at the end of a path does not change whether it is public.
is_public-slash : (path : String) → is_public (path <> "/") ≡ is_public path
unfolding is_public normal_path
is_public-slash path = rw (rstrip-slash path) refl

abbrev second_char : String → ℕ
second_char (String.◌∷◌ c (String.◌∷◌ d s)) = code d
second_char _ = 0

second-rstrip_cons :
    (c d : Char) (t : String)
    → is_slash (code d) ≡ false
    → second_char (rstrip_cons is_slash c (rstrip_cons is_slash d t)) ≡ code d
second-rstrip_cons c d String.[] e = ground arith
second-rstrip_cons c d (String.◌∷◌ x t) e = refl

contains_other :
    (path : String) (paths : List String)
    → All (λ p. second_char p ≢ second_char path) paths
    → contains path paths ≡ false
contains_other path [] h = refl
contains_other path (p ∷ paths) h =
    ground (arith, contains_other path paths h.1, eq_iff p path, eq_iff path p)

instances_tail :
    (rest : String) → "/instances" <> rest ≡ String.◌∷◌ "/" (String.◌∷◌ "i" ("nstances" <> rest))
instances_tail rest =
    cons-append "/" "instances" rest ∙ ap (String.◌∷◌ "/") (cons-append "i" "nstances" rest)

or_root_second : (path : String) → second_char path ≡ b'i' → second_char (or_root path) ≡ b'i'
or_root_second String.[] e = absurd (ground arith)
or_root_second (String.◌∷◌ c s) e = e

second-normal_path : (rest : String) → second_char (normal_path ("/instances" <> rest)) ≡ b'i'
unfolding normal_path
second-normal_path rest = rw (instances_tail rest) (
    or_root_second
      (rstrip_cons is_slash "/" (rstrip_cons is_slash "i" (rstrip is_slash ("nstances" <> rest))))
      (second-rstrip_cons "/" "i" (rstrip is_slash ("nstances" <> rest)) refl))

-- No path that begins with `/instances` is public.
pub instances_protected : (rest : String) → is_public ("/instances" <> rest) ≡ false
unfolding is_public
instances_protected rest =
    contains_other (normal_path ("/instances" <> rest)) public_paths
      (rw (second-normal_path rest) (ground arith))

pub health_public : is_public "/health" ≡ true
unfolding is_public normal_path
health_public = refl
