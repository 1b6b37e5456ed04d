-- ===== src/Registry.antt =====
-- tr_bridge/instance_registry.py: one session and one client for each configured instance.
pub mod Lookup
pub mod Built
pub mod Resumed
use text.Mathlib.Text.{◌==◌ as str_eq}
use trade_republic_bridge.Base.{
  ℕ, suc, String, Bool, true, false, Option, none, some, List, [], ◌∷◌, map, Result, ok, err, ◌>>=◌,
  if◌then◌else◌,
}
use trade_republic_bridge.Domain.{instance_not_found, Exc, domain}
use trade_republic_bridge.Config.{Config, session_dir}
use trade_republic_bridge.Config.Entry.{InstanceConfig, Fault}
use trade_republic_bridge.Session.{Session, Progress, raises, init, resume}
use trade_republic_bridge.Pytr.{Client}

-- The session of an instance with the client that is injected into it.
pub record Instance (Api : Type 0) : Type 0 where
  pub session : Session
  pub client : Client Api

-- `_sessions`, a dict in insertion order
abbrev pub Registry : Type 0 → Type 0
Registry Api = List (String × Instance Api)

module _ {V : Type 0} where
  -- `d[key] = v`
  abbrev pub insert : String → V → List (String × V) → List (String × V)
  insert key v [] = (key, v) ∷ []
  insert key v (e ∷ d) = if str_eq e.0 key then (key, v) ∷ d else e ∷ insert key v d

  -- `d[key]`, or `none` for its `KeyError`
  abbrev pub lookup : String → List (String × V) → Option V
  lookup key [] = none
  lookup key (e ∷ d) = if str_eq e.0 key then some e.1 else lookup key d

  abbrev pub keys : List (String × V) → List String
  keys = map (λ e. e.0)

-- The value of the dict comprehension in `__init__`.
pub make_instance : {Api : Type 0} → Config → InstanceConfig → String → Instance Api
unfolding init
make_instance config inst dir = record {
  session = init inst.name config.tfa_timeout;
  client = record { config = inst; session_dir = dir; api = none };
}

-- The dict comprehension of `__init__`
pub build_from :
    {Api : Type 0} → Config → List InstanceConfig → Registry Api → Result Fault (Registry Api)
unfolding make_instance
build_from config [] reg = ok reg
build_from config (inst ∷ rest) reg = session_dir config inst.name >>= λ dir.
    build_from config rest (insert inst.name (make_instance config inst dir) reg)

-- `__init__`
pub build : {Api : Type 0} → Config → Result Fault (Registry Api)
unfolding build_from
build config = build_from config config.instances []

-- `get`
unfoldable pub get : {Api : Type 0} → Registry Api → String → Result Exc (Instance Api)
get reg name = elim (lookup name reg) [
  | some inst ↦ ok inst
  | none ↦ err (domain (instance_not_found name))
]

-- What the port answers when the session of an instance is resumed, and the client that it leaves.
abbrev pub Answers : Type 0 → Type 0
Answers Api = String → Client Api → Result Exc Bool × Client Api

abbrev raised : {A : Type 0} → Progress A → Bool
raised (raises _) = true
raised _ = false

-- `_resume_safe`: whether it raised, and the instance afterwards
pub resume_safe : {Api : Type 0} → Answers Api → String × Instance Api → Bool × Instance Api
unfolding resume
resume_safe answers (name, inst) =
    let (answer, client) = answers name inst.client in
    let (outcome, session) = resume answer inst.session in
    (raised outcome, record { session = session; client = client })

-- `resume_all`: each session is resumed on its own and what it raises is collected, so the order in
-- which they end makes no difference. The number is `failed`.
pub resume_all : {Api : Type 0} → Answers Api → Registry Api → ℕ × Registry Api
unfolding resume_safe
resume_all answers [] = (0, [])
resume_all answers (e ∷ reg) =
    let (failed, inst) = resume_safe answers e in
    let (count, rest) = resume_all answers reg in
    ((if failed then suc count else count), (e.0, inst) ∷ rest)
