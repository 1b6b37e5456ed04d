-- ===== src/Service/Login.antt =====
-- A whole login with a code: the session (tr_bridge/application/session.py) over the adapter
-- (tr_bridge/adapters/pytr/pytr_client.py), one world of pytr from the first call to the last.
use trade_republic_bridge.Base.{
  some, ℕ, String, ◌≡◌, ◌∙◌, refl, subst, true, false, List, none, ok, arith,
}
use trade_republic_bridge.Domain.{SessionState, LoginChallenge}
use trade_republic_bridge.Session.{running, Session, returns}
use trade_republic_bridge.Session.Steps.{Reach}
use trade_republic_bridge.Session.Calls
use trade_republic_bridge.Session.Calls.{
  IsQuiet, start_login_lem, submit_2fa, submit_2fa-Outcome, Outcome,
}
use trade_republic_bridge.Session.Driven.{confirm_push, login, submit, timeline}
use trade_republic_bridge.Session.Driven.Laws.{
  start_login_polls, approved, timeline_confirmed, login_lem, submit_lem,
}
use trade_republic_bridge.Pytr.{Pytr, Client}
use trade_republic_bridge.Pytr.Handle.{
  login_pushes, push_completes, Has, resume_answers, login_asks,
}
use trade_republic_bridge.Pytr.Errors.{Confirmed, complete_login_iff}
use trade_republic_bridge.Pytr.Timeline.{Fetched, fetch_timeline_iff}
use trade_republic_bridge.Window.{DateTime}
use trade_republic_bridge.Pytr.Adapter.{IsLocal, pytr_port}

module _ (p : Pytr) (local : IsLocal p) where
  open p use {World, Api}

  -- The session after a login that asks for a code.
  abbrev pub asked : Session → Session
  asked s = (Calls.start_login (ok false) (ok LoginChallenge.authenticator) s).1

  pub login_runs :
      (c : Client Api) (w w₁ w₂ : World) {a : Api} (s : Session) {name : String} {tfa_timeout : ℕ}
      → Reach name tfa_timeout s
      → IsQuiet s
      → Has p c a
      → p.resume_websession a w ≡ (ok false, w₁)
      → p.initiate_weblogin a w₁ ≡ (ok tt, w₂)
      → p.needs_authenticator a w₂ ≡ true
      → login (pytr_port p local) s (c, w) ≡ (returns SessionState.authenticator, asked s, (c, w₂))
  login_runs c w w₁ w₂ s reach quiet h x y needed =
      let port = pytr_port p local in
      let (same, at) = login_lem port s (c, w) in
      let resumed = resume_answers p c w w₁ h x in
      let started = login_asks p c w₁ w₂ h y needed in
      let (result, _, _, _) =
        start_login_lem (ok false) (ok LoginChallenge.authenticator) s reach quiet in
      ground arith

  -- A code that is accepted, in a session that awaits one.
  pub code_runs :
      (c : Client Api) (w w₁ : World) {a : Api} (code : String) (s : Session)
      → Has p c a
      → s.state ≡ SessionState.authenticator
      → Confirmed p a code w w₁
      → let (result, done, left) = submit (pytr_port p local) code s (c, w) in
        (result ≡ returns tt)
        × (done.state ≡ SessionState.confirmed)
        × (done.timeout_task ≡ none)
        × (left ≡ (c, w₁))
  code_runs c w w₁ code s h awaited confirmed =
      let port = pytr_port p local in
      let (same, at) = submit_lem port code s (c, w) in
      let answered = (complete_login_iff p c w w₁ code h).1 confirmed in
      let pending : Outcome SessionState.authenticator s (ok tt) (submit_2fa (ok tt) s) =
        subst (λ st. Outcome st s (ok tt) (submit_2fa (ok tt) s)) awaited
          (submit_2fa-Outcome (ok tt) s) in
      ground arith

  -- From a reachable session with no login under way and a client with a handle: if Trade Republic has
  -- no web session to resume, starts a login that needs the authenticator, and accepts the code with
  -- all that follows, then `start_login` returns `authenticator`, `submit_2fa` returns, the session is
  -- confirmed with no timeout left, and both calls went to the same handle, in that order. A timeline
  -- that is asked for next gives the events that pytr then collects for its window.
  pub authenticator_login :
      (c : Client Api) (w w₁ w₂ w₃ w₄ : World) {a : Api} (code : String) (s : Session)
      {name : String} {tfa_timeout : ℕ} (since until : DateTime) (events : List p.Event)
      → Reach name tfa_timeout s
      → IsQuiet s
      → Has p c a
      → p.resume_websession a w ≡ (ok false, w₁)
      → p.initiate_weblogin a w₁ ≡ (ok tt, w₂)
      → p.needs_authenticator a w₂ ≡ true
      → Confirmed p a code w₂ w₃
      → Fetched p c a since until w₃ w₄ events
      → let port = pytr_port p local in
        let (first, awaiting, client) = login port s (c, w) in
        let (second, done, left) = submit port code awaiting client in
        (first ≡ returns SessionState.authenticator)
        × (second ≡ returns tt)
        × (done.state ≡ SessionState.confirmed)
        × (done.timeout_task ≡ none)
        × (timeline port since until done left ≡ (ok events, (c, w₄)))
  authenticator_login c w w₁ w₂ w₃ w₄ code s since until events reach quiet h x y needed confirmed
        fetched =
      let port = pytr_port p local in
      let (result, state, _, _) =
        start_login_lem (ok false) (ok LoginChallenge.authenticator) s reach quiet in
      let awaited : (asked s).state ≡ SessionState.authenticator = ground arith in
      let (second, done, timer, left) = code_runs c w₂ w₃ code (asked s) h awaited confirmed in
      let got = (fetch_timeline_iff p c w₃ w₄ since until events h).1 fetched in
      rw (login_runs c w w₁ w₂ s reach quiet h x y needed) (
        refl,
        second,
        done,
        timer,
        timeline_confirmed port since until (submit port code (asked s) (c, w₂)).1
              (submit port code (asked s) (c, w₂)).2 done
            ∙ rw left (ground (arith, got)),
      )

  -- The session after a login that asks for an approval.
  abbrev waiting : Session → Session
  waiting s = (Calls.start_login (ok false) (ok LoginChallenge.push) s).1

  push_runs :
      (c : Client Api) (w w₁ w₂ : World) {a : Api} (s : Session) {name : String} {tfa_timeout : ℕ}
      → Reach name tfa_timeout s
      → IsQuiet s
      → Has p c a
      → p.resume_websession a w ≡ (ok false, w₁)
      → p.initiate_weblogin a w₁ ≡ (ok tt, w₂)
      → p.needs_authenticator a w₂ ≡ false
      → login (pytr_port p local) s (c, w) ≡ (returns SessionState.push, waiting s, (c, w₂))
  push_runs c w w₁ w₂ s reach quiet h x y needed =
      let port = pytr_port p local in
      let (same, at) = login_lem port s (c, w) in
      let resumed = resume_answers p c w w₁ h x in
      let started = login_pushes p c w₁ w₂ h y needed in
      let (result, _, _, _) = start_login_lem (ok false) (ok LoginChallenge.push) s reach quiet in
      ground arith

  -- From a reachable session with no login under way and a client with a handle: if Trade Republic has
  -- no web session to resume, starts a login that needs no authenticator, and reports the approval,
  -- then `start_login` returns `push` and leaves a running task that polls for the approval, and that
  -- task, if nothing comes between, confirms the session, with no timeout and no task registered.
  -- Every call goes to the same handle.
  pub push_login :
      (c : Client Api) (w w₁ w₂ w₃ : World) {a : Api} (s : Session) {name : String}
      {tfa_timeout : ℕ}
      → Reach name tfa_timeout s
      → IsQuiet s
      → Has p c a
      → p.resume_websession a w ≡ (ok false, w₁)
      → p.initiate_weblogin a w₁ ≡ (ok tt, w₂)
      → p.needs_authenticator a w₂ ≡ false
      → p.complete_weblogin a none w₂ ≡ (ok tt, w₃)
      → let port = pytr_port p local in
        let (first, awaiting, client) = login port s (c, w) in
        let (done, left) = confirm_push port s.next_task awaiting client in
        (first ≡ returns SessionState.push)
        × (awaiting.push_task ≡ some s.next_task)
        × (awaiting.pushes s.next_task ≡ some running)
        × (done.state ≡ SessionState.confirmed)
        × (done.timeout_task ≡ none)
        × (done.push_task ≡ none)
        × (left ≡ (c, w₃))
  push_login c w w₁ w₂ w₃ s reach quiet h x y needed reported =
      let port = pytr_port p local in
      let (result, state, _, _) =
        start_login_lem (ok false) (ok LoginChallenge.push) s reach quiet in
      let pushed : (waiting s).state ≡ SessionState.push = ground arith in
      let (task, runs) = start_login_polls s quiet in
      let completed = push_completes p c w₂ w₃ h reported in
      let (done, timer, polled, left) =
        approved port s.next_task (waiting s) (c, w₂) (c, w₃) pushed (ground (arith, completed)) in
      rw (push_runs c w w₁ w₂ s reach quiet h x y needed)
        (refl, task, runs, done, timer, polled, left)
