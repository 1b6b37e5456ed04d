-- ===== src/Service/Runs.antt =====
-- Requests that overlap: every run of the started service (tr_bridge/main.py: `_lifespan`;
-- tr_bridge/adapters/web/routes.py), seen at one instance.
use text.Mathlib.Text.{◌==◌ as str_eq}
use text.Mathlib.TextEquality.{eq_iff}
use trade_republic_bridge.Base.{
  ℕ, String, ◌≡◌, sym, subst, ◌∙◌, ap, some, List, ok, arith, Bool-cases, inl, inr,
}
use trade_republic_bridge.Config.{Env, Config}
use trade_republic_bridge.Session.{Session, init, resume}
use trade_republic_bridge.Session.Steps
use trade_republic_bridge.Session.Steps.{Reach}
use trade_republic_bridge.Pytr.{Client}
use trade_republic_bridge.Registry.{Instance, Registry, Answers, insert, lookup}
use trade_republic_bridge.Registry.Built.{lookup-expected}
use trade_republic_bridge.Registry.Resumed.{attempted, resume_lem}
use trade_republic_bridge.Startup.{lifespan}
use trade_republic_bridge.Startup.Ready.{lifespan-attempted}
use trade_republic_bridge.Registry.Lookup.{lookup-insert_self, lookup-insert_other}

-- One step of one session, which is an object that all requests for its instance share; its client
-- may change too. No step touches another instance, and the dict of sessions is never written.
pub data Step {Api : Type 0} (reg : Registry Api) : Registry Api → Type 0 where
  steps :
      (name : String) (inst : Instance Api) (t : Session) (c : Client Api)
      → lookup name reg ≡ some inst
      → Steps.Step inst.session t
      → Step reg (insert name (record { session = t; client = c }) reg)

-- The registries of a service that was started with the configuration `c`.
pub data Serves {Api : Type 0} (env : Env) (answers : Answers Api) (c : Config)
    : Registry Api → Type 0 where
  starts :
      (reg : Registry Api)
      → lifespan env answers ≡ ok (record { config = c; registry = reg })
      → Serves env answers c reg
  goes_on :
      {reg after : Registry Api}
      → Serves env answers c reg
      → Step reg after
      → Serves env answers c after

-- The session of an instance after its attempt to resume.
attempted-Reach :
    {Api : Type 0} (answers : Answers Api) (name : String) (tfa_timeout : ℕ) (inst : Instance Api)
    → inst.session ≡ init name tfa_timeout
    → Reach name tfa_timeout (attempted answers name inst).session
attempted-Reach answers name tfa_timeout inst e =
    let r = (answers name inst.client).0 in
    subst (Reach name tfa_timeout) (ap (λ s. (resume r s).1) (sym e) ∙ resume_lem r inst.session)
      (Steps.started r)

started-Reach :
    {Api : Type 0} (env : Env) (answers : Answers Api) (c : Config) (reg : Registry Api)
    (name : String) {inst : Instance Api}
    → lifespan env answers ≡ ok (record { config = c; registry = reg })
    → lookup name reg ≡ some inst
    → Reach name c.tfa_timeout inst.session
started-Reach {Api} env answers c reg name {inst} e found =
    let (before, there, after) =
      lifespan-attempted env answers (record { config = c; registry = reg }) name e found in
    subst (λ (i : Instance Api). Reach name c.tfa_timeout i.session) after
      (attempted-Reach answers name c.tfa_timeout before (lookup-expected c name c.instances there))

inserted :
    {V : Type 0} (key name : String) (v w : V) (d : List (String × V))
    → key ≡ name
    → lookup name (insert key v d) ≡ some w
    → v ≡ w
inserted key name v w d e found =
    let here = subst (λ k. lookup name (insert k v d) ≡ some w) e found in
    cc (here, lookup-insert_self name v d)

-- A step keeps every session of the registry reachable.
pub Step-Reach :
    {Api : Type 0} {tfa_timeout : ℕ} {reg after : Registry Api}
    → Step reg after
    → ((name : String) (inst : Instance Api)
        → lookup name reg ≡ some inst
        → Reach name tfa_timeout inst.session)
    → (name : String) (inst : Instance Api) → lookup name after ≡ some inst
    → Reach name tfa_timeout inst.session
Step-Reach {Api} {tfa_timeout} {reg} (steps key old t client known st) before name inst found =
    elim (Bool-cases (str_eq key name)) [
      | inl same ↦
          let key_is : key ≡ name = (eq_iff key name).0 same in
          let moved = Steps.stepped (before key old known) st in
          let here =
            inserted key name (record { session = t; client = client }) inst reg key_is found in
          subst (λ (i : Instance Api). Reach name tfa_timeout i.session) here
            (subst (λ k. Reach k tfa_timeout t) key_is moved)
      | inr other ↦
          before name inst (
            sym (lookup-insert_other key name _ reg (λ e. ground (arith, eq_iff key name))) ∙ found)
    ]

-- In a run of the service every step moves one session by one of its own steps, so each session of
-- the registry runs as if it were alone.
pub Serves-Reach :
    {Api : Type 0} (env : Env) (answers : Answers Api) (c : Config) (reg : Registry Api)
    (name : String) (inst : Instance Api)
    → Serves env answers c reg
    → lookup name reg ≡ some inst
    → Reach name c.tfa_timeout inst.session
Serves-Reach env answers c _ name inst (starts reg e) found =
    started-Reach env answers c reg name e found
Serves-Reach {Api} env answers c _ name inst (goes_on {reg} r st) found =
    Step-Reach st (λ key old. Serves-Reach env answers c reg key old r) name inst found
