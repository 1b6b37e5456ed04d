-- ===== src/Service/Requests.antt =====
-- The login routes (tr_bridge/adapters/web/routes.py) over the adapter: the registry holds each
-- session with its client, and a request leaves both as its call leaves them.
pub mod Timeline
pub mod Effects
use trade_republic_bridge.Base.{
  ℕ, String, ◌≡◌, ◌≢◌, ◌∙◌, refl, ap, true, false, none, some, ok, err, arith,
}
use trade_republic_bridge.Domain.{
  SessionState, LoginChallenge, state_value, instance_not_found, domain,
}
use trade_republic_bridge.Session.{Session, Progress, returns, raises}
use trade_republic_bridge.Session.Steps.{Reach}
use trade_republic_bridge.Session.Calls.{IsQuiet, start_login_lem}
use trade_republic_bridge.Session.Driven.{login, submit}
use trade_republic_bridge.Pytr.{Pytr, Client}
use trade_republic_bridge.Pytr.Handle.{Has}
use trade_republic_bridge.Pytr.Errors.{Confirmed}
use trade_republic_bridge.Pytr.Adapter.{IsLocal, pytr_port}
use trade_republic_bridge.Registry.{Instance, Registry, insert, lookup, get}
use trade_republic_bridge.Registry.Lookup.{lookup-insert_self, lookup-insert_other}
use trade_republic_bridge.Web.Routes.{
  Payload, status, login_state, progress_map, get_instance_status,
}
use trade_republic_bridge.Web.Routes.Outcomes.{get-some, get-none, status_known}
use trade_republic_bridge.Service.Login.{login_runs, code_runs, asked}

module _ (p : Pytr) (local : IsLocal p) (Events : Type 0) where
  open p use {World, Api}

  -- A request that has been answered, with the registry and the world that it leaves.
  abbrev pub Answer : Type 0
  Answer = Progress (Payload Events) × Registry Api × World

  -- The session and its client go back to their place.
  abbrev pub stored :
      {A : Type 0}
      → String
      → Registry Api
      → (A → Session → Payload Events)
      → Progress A × Session × (Client Api × World)
      → Answer
  stored name reg render (result, s, (c, w)) = (
    progress_map (λ a. render a s) result,
    insert name (record { session = s; client = c }) reg,
    w,
  )

  -- A call of the session of an instance with its client, whose result becomes the payload.
  unfoldable pub on_instance :
      {A : Type 0}
      → (Session → Client Api × World → Progress A × Session × (Client Api × World))
      → (A → Session → Payload Events)
      → String
      → Registry Api
      → World
      → Answer
  on_instance call render name reg w = elim (get reg name) [
    | err e ↦ (raises e, reg, w)
    | ok inst ↦ stored name reg render (call inst.session (inst.client, w))
  ]

  -- `post_instance_login`
  unfoldable pub request_login : String → Registry Api → World → Answer
  unfolding on_instance
  request_login =
      on_instance (login (pytr_port p local)) (λ state _. login_state (state_value state))

  -- `post_instance_login_2fa`
  unfoldable pub request_2fa : String → String → Registry Api → World → Answer
  unfolding on_instance
  request_2fa name code =
      on_instance (submit (pytr_port p local) code) (λ _ s. login_state (state_value s.state)) name

  -- What the login leaves for the name.
  abbrev awaiting : Instance Api → Instance Api
  awaiting inst = record inst { session = asked p local inst.session }

  module _ {A : Type 0}
      (call : Session → Client Api × World → Progress A × Session × (Client Api × World))
      (render : A → Session → Payload Events) (name : String) (reg : Registry Api) (w : World) where
    pub on_instance_known :
        {inst : Instance Api}
        → lookup name reg ≡ some inst
        → on_instance call render name reg w
          ≡ stored name reg render (call inst.session (inst.client, w))
    unfolding on_instance
    on_instance_known known = ground (arith, get-some reg name known)

    pub on_instance_unknown :
        lookup name reg ≡ none
        → on_instance call render name reg w ≡ (raises (domain (instance_not_found name)), reg, w)
    unfolding on_instance
    on_instance_unknown missing = ground (arith, get-none reg name missing)

  login_requested :
      (name : String) (reg : Registry Api) (inst : Instance Api) (w w₁ w₂ : World) {a : Api}
      {owner : String} {tfa_timeout : ℕ}
      → lookup name reg ≡ some inst
      → Reach owner tfa_timeout inst.session
      → IsQuiet inst.session
      → Has p inst.client a
      → p.resume_websession a w ≡ (ok false, w₁)
      → p.initiate_weblogin a w₁ ≡ (ok tt, w₂)
      → p.needs_authenticator a w₂ ≡ true
      → request_login name reg w
        ≡ (returns (login_state "authenticator"), insert name (awaiting inst) reg, w₂)
  unfolding request_login
  login_requested name reg inst w w₁ w₂ known reach quiet h x y needed =
      rw
        (
          on_instance_known _ _ name reg w known,
          login_runs p local inst.client w w₁ w₂ inst.session reach quiet h x y needed,
        )
        refl

  code_requested :
      (name code : String) (reg : Registry Api) (inst : Instance Api) (w w₁ : World) {a : Api}
      → lookup name reg ≡ some inst
      → inst.session.state ≡ SessionState.authenticator
      → Has p inst.client a
      → Confirmed p a code w w₁
      → let (result, after, left) = request_2fa name code reg w in
        (result ≡ returns (login_state "confirmed"))
        × (get_instance_status {Events = Events} name after ≡ ok (status name "confirmed"))
        × (left ≡ w₁)
        × ((other : String) → other ≢ name → lookup other after ≡ lookup other reg)
  unfolding request_2fa
  code_requested name code reg inst w w₁ known awaited h confirmed =
      let (result, done, _, left) =
        code_runs p local inst.client w w₁ code inst.session h awaited confirmed in
      rw (on_instance_known _ _ name reg w known) (
        ground (arith, result, done),
        status_known _ name (lookup-insert_self name _ reg)
            ∙ ap (λ st. ok (status name (state_value st))) done,
        ap (λ t. t.1) left,
        λ other n. lookup-insert_other name other _ reg n,
      )

  -- If the registry holds, for the name, a reachable session with no login under way and a client with
  -- a handle, and Trade Republic has no web session to resume, starts a login that needs the
  -- authenticator and accepts the code with all that follows, then the login route answers
  -- `authenticator`, the 2FA route, on what that left, answers `confirmed`, the status route answers
  -- `confirmed` from then on, and every other name keeps its session and client.
  pub login_requests :
      (name code : String) (reg : Registry Api) (inst : Instance Api) (w w₁ w₂ w₃ : World) {a : Api}
      {owner : String} {tfa_timeout : ℕ}
      → lookup name reg ≡ some inst
      → Reach owner tfa_timeout inst.session
      → IsQuiet inst.session
      → Has p inst.client a
      → p.resume_websession a w ≡ (ok false, w₁)
      → p.initiate_weblogin a w₁ ≡ (ok tt, w₂)
      → p.needs_authenticator a w₂ ≡ true
      → Confirmed p a code w₂ w₃
      → let (first, between, v) = request_login name reg w in
        let (second, after, left) = request_2fa name code between v in
        (first ≡ returns (login_state "authenticator"))
        × (second ≡ returns (login_state "confirmed"))
        × (get_instance_status {Events = Events} name after ≡ ok (status name "confirmed"))
        × (left ≡ w₃)
        × ((other : String) → other ≢ name → lookup other after ≡ lookup other reg)
  login_requests name code reg inst w w₁ w₂ w₃ known reach quiet h x y needed confirmed =
      let (result, state, _, _) =
        start_login_lem (ok false) (ok LoginChallenge.authenticator) inst.session reach quiet in
      let awaited : (asked p local inst.session).state ≡ SessionState.authenticator =
        ground arith in
      let (second, shown, left, others) =
        code_requested name code (insert name (awaiting inst) reg) (awaiting inst) w₂ w₃
          (lookup-insert_self name (awaiting inst) reg) awaited h confirmed in
      rw (login_requested name reg inst w w₁ w₂ known reach quiet h x y needed) (
        refl,
        second,
        shown,
        left,
        λ other n. others other n ∙ lookup-insert_other name other (awaiting inst) reg n,
      )
