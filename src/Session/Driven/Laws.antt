-- ===== src/Session/Driven/Laws.antt =====
-- What the calls of a session do to its port, and what they raise (tr_bridge/application/session.py).
use trade_republic_bridge.Base.{
  ℕ, none, String, ◌≡◌, Bool, true, false, not, ◌&&◌, some, ok, if◌then◌else◌, arith, Result-cases,
  Bool-cases, inl, inr,
}
use trade_republic_bridge.Domain.{LoginChallenge, SessionState, foreign, is_pending}
use trade_republic_bridge.Window.{DateTime}
use trade_republic_bridge.Port.{TradeRepublicClient, is_translated}
use trade_republic_bridge.Session.{
  running, push_answered, Session, Progress, raises, is_free, enter_login, login_resumed,
  login_challenged, enter_submit, submit_answered, fetch_timeline, is_authenticator, is_confirmed,
}
use trade_republic_bridge.Session.Calls.{IsQuiet, start_login, submit_2fa}
use trade_republic_bridge.Session.Driven.{confirm_push, login, submit, timeline}

-- The call goes through the lock.
abbrev goes_in : Session → Bool
goes_in s = is_free s && not (is_pending s.state)

-- What a call raised, if it raised anything, is no transport-level failure.
abbrev is_clean : {A : Type 0} → Progress A → Bool
is_clean (raises (foreign f)) = not f.is_request
is_clean _ = true

-- A login that waits for an approval has a task that polls for it.
pub start_login_polls :
    (s : Session)
    → IsQuiet s
    → let t = (start_login (ok false) (ok LoginChallenge.push) s).1 in
      (t.push_task ≡ some s.next_task) × (t.pushes s.next_task ≡ some running)
unfolding start_login login_challenged
start_login_polls s q = ground (arith, q.settled, q.unlocked, q.unqueued)

module _ (port : TradeRepublicClient) where
  open port use {State}

  -- The port after a call of `start_login`.
  abbrev pub port_after : Session → State → State
  port_after s c =
      let (answer, asked) = port.resume_session c in
      if goes_in s then elim answer [ ok false ↦ (port.start_login asked).1 | _ ↦ asked ] else c

  -- `start_login` with a port does to the session, and returns or raises, what its answers say. A
  -- call that is refused or has to wait does not touch the port, one whose session is resumed, or
  -- whose resumption raises, asks it nothing more, and any other asks it to start a login.
  pub login_lem :
      (s : Session) (c : State)
      → let (result, after, c') = login port s c in
        let (answer, asked) = port.resume_session c in
        ((result, after) ≡ start_login answer (port.start_login asked).0 s) × (c' ≡ port_after s c)
  unfolding login start_login
  login_lem s c = elim (Result-cases (port.resume_session c).0) [
    | inl (true, e) ↦ rw e (ground arith, ground arith)
    | inl (false, e) ↦ rw e (ground arith, ground arith)
    | inr (x, e) ↦ rw e (ground arith, ground arith)
  ]

  -- `submit_2fa` with a port does to the session, and returns or raises, what its answer says. It asks
  -- the port once, with the code, in `authenticator`, and not at all in any other state.
  pub submit_lem :
      (code : String) (s : Session) (c : State)
      → let (result, after, c') = submit port code s c in
        let (answer, asked) = port.complete_login (some code) c in
        ((result, after) ≡ submit_2fa answer s)
        × (c' ≡ (if is_authenticator s.state then asked else c))
  unfolding submit submit_2fa
  submit_lem code s c = elim (Result-cases (port.complete_login (some code) c).0) [
    | inl (a, e) ↦ rw e (ground arith, ground arith)
    | inr (x, e) ↦ rw e (ground arith, ground arith)
  ]

  -- A confirmed session passes the request on.
  pub timeline_confirmed :
      (since until : DateTime) (s : Session) (c : State)
      → s.state ≡ SessionState.confirmed
      → timeline port since until s c ≡ port.fetch_timeline since until c
  unfolding timeline
  timeline_confirmed since until s c e = ground arith

  -- `fetch_timeline` with a port returns or raises what its answer says.
  pub timeline_lem :
      (since until : DateTime) (s : Session) (c : State)
      → (timeline port since until s c).0 ≡ fetch_timeline s (port.fetch_timeline since until c).0
  unfolding timeline fetch_timeline
  timeline_lem since until s c = elim (Bool-cases (is_confirmed s.state)) [
    | inl e ↦ ground (arith, e)
    | inr e ↦ ground (arith, e)
  ]

  -- An approval confirms a session that awaits it.
  pub approved :
      (i : ℕ) (s : Session) (c c' : State)
      → s.state ≡ SessionState.push
      → port.complete_login none c ≡ (ok tt, c')
      → let (done, left) = confirm_push port i s c in
        (done.state ≡ SessionState.confirmed)
        × (done.timeout_task ≡ none)
        × (done.push_task ≡ none)
        × (left ≡ c')
  unfolding confirm_push push_answered
  approved i s c c' e x = ground arith

  login_clean : (s : Session) (c : State) → is_clean (login port s c).0 ≡ true
  unfolding login enter_login login_resumed login_challenged
  login_clean s c = elim (Result-cases (port.resume_session c).0) [
    | inl (true, e) ↦ ground arith
    | inl (false, e) ↦ ground (arith, port.start_translates (port.resume_session c).1)
    | inr (x, e) ↦ ground (arith, port.resume_translates c)
  ]

  submit_clean :
      (code : String) (s : Session) (c : State) → is_clean (submit port code s c).0 ≡ true
  unfolding submit enter_submit submit_answered
  submit_clean code s c = ground (arith, port.complete_translates (some code) c)

  timeline_clean :
      (since until : DateTime) (s : Session) (c : State)
      → is_translated (timeline port since until s c).0 ≡ true
  unfolding timeline fetch_timeline
  timeline_clean since until s c = ground (arith, port.fetch_translates since until c)

  -- A session adds no transport-level failure to a port that raises none: whatever its calls raise is
  -- a domain error, or an exception that is not of `requests`.
  pub calls_clean :
      (code : String) (since until : DateTime) (s : Session) (c : State)
      → (is_clean (login port s c).0 ≡ true)
        × (is_clean (submit port code s c).0 ≡ true)
        × (is_translated (timeline port since until s c).0 ≡ true)
  calls_clean code since until s c =
      (login_clean s c, submit_clean code s c, timeline_clean since until s c)
