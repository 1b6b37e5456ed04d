-- ===== src/Service/Requests/Effects.antt =====
-- What the requests for an instance do to the registry (tr_bridge/adapters/web/routes.py).
use text.Mathlib.Text.{◌==◌ as str_eq}
use text.Mathlib.TextEquality.{eq_iff}
use trade_republic_bridge.Base.{
  ℕ, String, ◌≡◌, ◌≢◌, ◌↔◌, refl, sym, subst, ◌∙◌, Option, none, some, List, Result, arith,
  Bool-cases, Option-cases, Result-cases, inl, inr,
}
use trade_republic_bridge.Domain.{SessionState, Exc, state_value}
use trade_republic_bridge.Session.{Session, Progress}
use trade_republic_bridge.Session.Steps.{Reach}
use trade_republic_bridge.Session.Calls.Runs.{start_login-Reach, submit_2fa-Reach}
use trade_republic_bridge.Session.Driven.{login, submit, timeline}
use trade_republic_bridge.Session.Driven.Laws.{login_lem, submit_lem}
use trade_republic_bridge.Window.{Iso, parse_window}
use trade_republic_bridge.Pytr.{Pytr, Client}
use trade_republic_bridge.Pytr.Adapter.{IsLocal, pytr_port}
use trade_republic_bridge.Registry.{Instance, Registry, insert, lookup}
use trade_republic_bridge.Registry.Lookup.{lookup-insert_self, lookup-insert_other}
use trade_republic_bridge.Web.Routes.{Payload, login_state}
use trade_republic_bridge.Service.Requests.{
  on_instance, on_instance_known, on_instance_unknown, request_login, request_2fa,
}
use trade_republic_bridge.Service.Requests.Timeline.{rendered, request_timeline}

-- Every session of the registry is reachable for its name.
abbrev pub Sound : {Api : Type 0} → ℕ → Registry Api → Type 0
Sound {Api} tfa_timeout reg =
    (name : String) (inst : Instance Api)
    → lookup name reg ≡ some inst
    → Reach name tfa_timeout inst.session

-- What a request for one instance leaves of the registry: every other name keeps its session and
-- client, no name comes or goes, and reachable sessions stay reachable.
pub record Touches {Api : Type 0} (tfa_timeout : ℕ) (name : String) (before after : Registry Api)
    : Type 0 where
  pub others : (other : String) → other ≢ name → lookup other after ≡ lookup other before
  pub names : (other : String) → (lookup other after ≡ none) ↔ (lookup other before ≡ none)
  pub sound : Sound tfa_timeout before → Sound tfa_timeout after

module _ {Api : Type 0} (tfa_timeout : ℕ) (name : String) (reg : Registry Api) where
  pub untouched : Touches tfa_timeout name reg reg
  untouched = record {
    others = λ other n. refl;
    names = λ other. ((λ e. e), λ e. e);
    sound = λ s. s;
  }

  insert-others :
      (new : Instance Api) (other : String)
      → other ≢ name
      → lookup other (insert name new reg) ≡ lookup other reg
  insert-others new other n = lookup-insert_other name other new reg n

  insert-names :
      {old : Instance Api} (new : Instance Api) (other : String)
      → lookup name reg ≡ some old
      → (lookup other (insert name new reg) ≡ none) ↔ (lookup other reg ≡ none)
  insert-names new other known = elim (Bool-cases (str_eq other name)) [
    | inl same ↦
        let e = (eq_iff other name).0 same in
        let there = lookup-insert_self name new reg in rw e (ground (arith, there, known))
    | inr differs ↦
        let kept = insert-others new other (λ e. ground (arith, eq_iff other name)) in
        rw kept ((λ e. e), λ e. e)
  ]

  insert-Sound :
      (new : Instance Api)
      → Reach name tfa_timeout new.session
      → Sound tfa_timeout reg
      → Sound tfa_timeout (insert name new reg)
  insert-Sound new r s other inst found = elim (Bool-cases (str_eq other name)) [
    | inl same ↦
        let e = (eq_iff other name).0 same in
        let there = subst (λ k. lookup k (insert name new reg) ≡ some inst) e found in
        let same_inst : new ≡ inst = cc (there, lookup-insert_self name new reg) in
        subst (λ k. Reach k tfa_timeout inst.session) (sym e)
          (subst (λ (i : Instance Api). Reach name tfa_timeout i.session) same_inst r)
    | inr differs ↦
        s other inst
          (sym (insert-others new other (λ e. ground (arith, eq_iff other name))) ∙ found)
  ]

  pub insert-Touches :
      (old new : Instance Api)
      → lookup name reg ≡ some old
      → (Reach name tfa_timeout old.session → Reach name tfa_timeout new.session)
      → Touches tfa_timeout name reg (insert name new reg)
  insert-Touches old new known r = record {
    others = insert-others new;
    names = λ other. insert-names new other known;
    sound = λ s. insert-Sound new (r (s name old known)) s;
  }

module _ (p : Pytr) (local : IsLocal p) (Events : Type 0) (tfa_timeout : ℕ) (name : String)
    (reg : Registry p.Api) (w : p.World) where
  open p use {World, Api, Event}

  on_instance-Touches :
      {A : Type 0}
      (call : Session → Client Api × World → Progress A × Session × (Client Api × World))
      (render : A → Session → Payload Events)
      → ((s : Session) (c : Client Api × World)
          → Reach name tfa_timeout s
          → Reach name tfa_timeout (call s c).1)
      → Touches tfa_timeout name reg (on_instance p local Events call render name reg w).1
  on_instance-Touches call render r = elim (Option-cases (lookup name reg)) [
    | inl missing ↦
        rw (on_instance_unknown p local Events call render name reg w missing)
          (untouched tfa_timeout name reg)
    | inr (inst, known) ↦
        rw (on_instance_known p local Events call render name reg w known)
          (insert-Touches tfa_timeout name reg inst _ known (r inst.session (inst.client, w)))
  ]

  pub request_login-Touches :
      Touches tfa_timeout name reg (request_login p local Events name reg w).1
  unfolding request_login
  request_login-Touches =
      on_instance-Touches (login (pytr_port p local)) (λ state _. login_state (state_value state))
        (λ s c r.
          subst (λ (x : Progress SessionState × Session). Reach name tfa_timeout x.1)
            (sym (login_lem (pytr_port p local) s c).0) (start_login-Reach _ _ r))

  pub request_2fa-Touches :
      (code : String) → Touches tfa_timeout name reg (request_2fa p local Events name code reg w).1
  unfolding request_2fa
  request_2fa-Touches code =
      on_instance-Touches (submit (pytr_port p local) code)
        (λ _ s. login_state (state_value s.state))
        (λ s c r.
          subst (λ (x : Progress (Unit {0}) × Session). Reach name tfa_timeout x.1)
            (sym (submit_lem (pytr_port p local) code s c).0) (submit_2fa-Reach _ r))

  pub request_timeline-Touches :
      (iso : Iso) (validate : List Event → Result Exc Events) (now : ℕ)
      (since until : Option String)
      → Touches tfa_timeout name reg
          (request_timeline p local Events iso validate now since until name reg w).1
  unfolding request_timeline
  request_timeline-Touches iso validate now since until =
      elim (Result-cases (parse_window iso now since until)) [
        | inr (x, e) ↦ rw e (untouched tfa_timeout name reg)
        | inl ((a, b), e) ↦ rw e (
            on_instance-Touches
              (λ s c.
                rendered p local Events iso validate name a b s
                  (timeline (pytr_port p local) a b s c))
              (λ payload _. payload) (λ s c r. r))
      ]
