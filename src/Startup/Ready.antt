-- ===== src/Startup/Ready.antt =====
-- The state in which the service starts to take requests (tr_bridge/main.py: `_lifespan`).
use mathlib.Core.Option
use trade_republic_bridge.Base.{
  String, ◌≡◌, refl, sym, ap, ◌∙◌, some, ◌↔◌, none, ok, err, arith, Result-cases, inl, inr,
}
use trade_republic_bridge.Config.{Env, Config, load}
use trade_republic_bridge.Config.Entry.{Fault}
use trade_republic_bridge.Config.Valid.{IsConfig, from_file-IsConfig}
use trade_republic_bridge.Registry.{Instance, Answers, lookup, resume_all}
use trade_republic_bridge.Registry.Built.{expected, build-expected}
use trade_republic_bridge.Registry.Resumed.{attempted, resume_all-lookup}
use trade_republic_bridge.Startup.{State, lifespan}

load-IsConfig : (env : Env) {c : Config} → load env ≡ ok c → IsConfig c
unfolding load
load-IsConfig env e = (from_file-IsConfig env none e).0

pub lifespan_started :
    {Api : Type 0} (env : Env) (answers : Answers Api) {c : Config}
    → load env ≡ ok c
    → lifespan env answers
      ≡ ok (record { config = c; registry = (resume_all answers (expected c c.instances)).1 })
unfolding lifespan
lifespan_started {Api} env answers {c} e =
    ground (arith, build-expected {Api = Api} c (load-IsConfig env e))

-- If the configuration loads, it is valid and the service starts with it. A name looked up in the
-- registry then gives the fresh session and client of the configured instance after its own attempt
-- to resume, and nothing if no instance has that name: no attempt, whatever it raises, keeps the
-- service or another instance from starting.
pub lifespan_lem :
    {Api : Type 0} (env : Env) (answers : Answers Api) (c : Config) (name : String)
    → load env ≡ ok c
    → IsConfig c
      × ((s : State Api) × (lifespan env answers ≡ ok s)
          × (s.config ≡ c)
          × (lookup name s.registry
              ≡ Option.map (attempted answers name) (lookup name (expected c c.instances))))
lifespan_lem env answers c name e = (
  load-IsConfig env e,
  (
    _,
    lifespan_started env answers e,
    refl,
    resume_all-lookup answers (expected c c.instances) name,
  ),
)

-- The service fails to start exactly when the configuration cannot be loaded, with the same fault.
lifespan_fault_iff :
    {Api : Type 0} (env : Env) (answers : Answers Api) (f : Fault)
    → (lifespan env answers ≡ err f) ↔ (load env ≡ err f)
unfolding lifespan
lifespan_fault_iff env answers f = elim (Result-cases (load env)) [
  | inl (c, e) ↦
      ((λ x. absurd (ground (arith, lifespan_started env answers e))), λ x. absurd (ground arith))
  | inr (x, e) ↦ ((λ y. ground arith), λ y. ground arith)
]

-- A service that started has the configuration that was loaded.
lifespan-load :
    {Api : Type 0} (env : Env) (answers : Answers Api) {s : State Api}
    → lifespan env answers ≡ ok s
    → load env ≡ ok s.config
unfolding lifespan
lifespan-load env answers e = ground arith

-- Every instance of a started service is a configured one after its attempt.
pub lifespan-attempted :
    {Api : Type 0} (env : Env) (answers : Answers Api) (s : State Api) (name : String)
    {inst : Instance Api}
    → lifespan env answers ≡ ok s
    → lookup name s.registry ≡ some inst
    → (before : Instance Api) × (lookup name (expected s.config s.config.instances) ≡ some before)
      × (attempted answers name before ≡ inst)
lifespan-attempted env answers s name e found =
    let (_, (t, made, _, known)) =
      lifespan_lem env answers s.config name (lifespan-load env answers e) in
    let same : t ≡ s = cc (made, e) in
    (Option.map-eq-some_iff _ _).0
      (sym known ∙ ap (λ (x : State _). lookup name x.registry) same ∙ found)
