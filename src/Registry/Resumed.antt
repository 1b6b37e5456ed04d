-- ===== src/Registry/Resumed.antt =====
-- Start-up (tr_bridge/instance_registry.py: `resume_all`).
use text.Mathlib.Text.{◌==◌ as str_eq}
use text.Mathlib.TextEquality.{eq_iff}
use trade_republic_bridge.Base.{
  ℕ, suc, String, ◌≡◌, refl, ap, ◌∙◌, Bool, true, false, some, [], ◌∷◌, Result, ok, err, arith,
  Bool-cases, inl, inr,
}
use mathlib.Core.Option
use trade_republic_bridge.Domain.{SessionState, Exc}
use trade_republic_bridge.Session.{Session, resume}
use trade_republic_bridge.Registry.{Instance, Registry, Answers, lookup, resume_safe, resume_all}

-- The state in which an answer of the port leaves a session that is resumed.
abbrev pub resumed_state : Result Exc Bool → SessionState → SessionState
resumed_state (ok true) before = SessionState.confirmed
resumed_state (ok false) before = before
resumed_state (err _) before = before

-- The instance after its own attempt.
abbrev pub attempted : {Api : Type 0} → Answers Api → String → Instance Api → Instance Api
attempted answers name inst = record {
  session = record inst.session {
    state = resumed_state (answers name inst.client).0 inst.session.state;
  };
  client = (answers name inst.client).1;
}

pub resume_lem :
    (r : Result Exc Bool) (s : Session)
    → (resume r s).1 ≡ record s { state = resumed_state r s.state }
unfolding resume
resume_lem (ok true) s = refl
resume_lem (ok false) s = refl
resume_lem (err e) s = refl

pub resume_safe_lem :
    {Api : Type 0} (answers : Answers Api) (name : String) (inst : Instance Api)
    → (resume_safe answers (name, inst)).1 ≡ attempted answers name inst
unfolding resume_safe
resume_safe_lem answers name inst =
    ap (λ (s : Session). record { session = s; client = (answers name inst.client).1 })
      (resume_lem (answers name inst.client).0 inst.session)

-- Every session ends as its own answer says, whatever becomes of the others: `confirmed` if its
-- saved session was resumed, and unchanged if there was none or if the attempt raised. No instance
-- is added or lost.
pub resume_all-lookup :
    {Api : Type 0} (answers : Answers Api) (reg : Registry Api) (name : String)
    → lookup name (resume_all answers reg).1 ≡ Option.map (attempted answers name) (lookup name reg)
unfolding resume_all
resume_all-lookup answers [] name = refl
resume_all-lookup answers ((key, inst) ∷ reg) name = elim (Bool-cases (str_eq key name)) [
  | inl same ↦ rw same (
      ap some (
        resume_safe_lem answers key inst
        ∙ ap (λ k. attempted answers k inst) ((eq_iff key name).0 same)))
  | inr other ↦ rw other (resume_all-lookup answers reg name)
]

-- The number of instances whose attempt raised.
abbrev failures : {Api : Type 0} → Answers Api → Registry Api → ℕ
failures answers [] = 0
failures answers ((name, inst) ∷ reg) = elim (answers name inst.client).0 [
  | ok _ ↦ failures answers reg
  | err _ ↦ suc (failures answers reg)
]

-- `resume_all` itself never raises; the number that it logs is the number of attempts that raised.
resume_all-failures :
    {Api : Type 0} (answers : Answers Api) (reg : Registry Api)
    → (resume_all answers reg).0 ≡ failures answers reg
unfolding resume_all resume
resume_all-failures answers [] = refl
resume_all-failures answers ((name, inst) ∷ reg) = ground (arith, resume_all-failures answers reg)
