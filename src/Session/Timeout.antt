-- ===== src/Session/Timeout.antt =====
-- The 2FA timeout and the push task (tr_bridge/application/session.py: `_run_timeout`,
-- `_run_push_confirmation`): no session is stuck in a pending state.
use trade_republic_bridge.Base.{
  ℕ, suc, String, ◌≡◌, ◌≢◌, inl, inr, true, false, none, some, Result, ok, err, arith, Option-cases,
}
use trade_republic_bridge.Domain.{SessionState, Exc, is_pending, is_upstream}
use trade_republic_bridge.Session.{
  Session, running, run_timeout, push_answered, answers_push, submit_answered,
}
use trade_republic_bridge.Session.Steps.{Step, timer_fires, push_answers, submit_answers, Reach}
use trade_republic_bridge.Session.Invariant.{Inv, Reach-Inv}

-- Whenever a reachable session is pending, the task that `_timeout_task` refers to is running, so its
-- sleep can end: the step in which it does leaves the session in `failed`, with no timeout and no push
-- task registered.
pub pending_times_out :
    {name : String} {tfa_timeout : ℕ} {s : Session}
    → Reach name tfa_timeout s
    → is_pending s.state ≡ true
    → (i : ℕ) × (s.timeout_task ≡ some i)
      × (s.timers i ≡ some running)
      × Step s (run_timeout i s)
      × ((run_timeout i s).state ≡ SessionState.failed)
      × ((run_timeout i s).timeout_task ≡ none)
      × ((run_timeout i s).push_task ≡ none)
unfolding run_timeout
pending_times_out {s} r pending = elim (Option-cases s.timeout_task) [
  | inl missing ↦ absurd (v.armed pending missing)
  | inr (i, e) ↦
      let live = (v.registered i e).0 in
      (i, e, live, timer_fires i live, ground arith, ground arith, ground arith)
]
  where
    v : Inv s
    v = Reach-Inv r

-- Outside `authenticator` and `push` no timer of a reachable session runs, so no timeout can fire.
settled-no_timer :
    {name : String} {tfa_timeout : ℕ} {s : Session}
    → Reach name tfa_timeout s
    → is_pending s.state ≡ false
    → (i : ℕ) → s.timers i ≢ some running
settled-no_timer {s} r settled i live = ground (arith, v.counted i, v.registered i)
  where
    v : Inv s
    v = Reach-Inv r

-- Where the answer to a pending approval leaves the session.
abbrev pub settled_state : Result Exc (Unit {0}) → SessionState
settled_state (ok _) = SessionState.confirmed
settled_state (err _) = SessionState.failed

-- A reachable session in `push` has a task that awaits the confirmation. If it returns
-- or raises an `Exception`, the task's next step settles the session: an approval in `confirmed`, an
-- error in `failed`, and no timeout stays registered.
push_settles :
    {name : String} {tfa_timeout : ℕ} {s : Session} (r : Result Exc (Unit {0}))
    → answers_push r ≡ true
    → Reach name tfa_timeout s
    → s.state ≡ SessionState.push
    → (i : ℕ) × (t : Session) × Step s t
      × (s.pushes i ≡ some running)
      × (t.state ≡ settled_state r)
      × (t.timeout_task ≡ none)
unfolding push_answered
push_settles {s} (ok a) caught reach e =
    let (i, live) = (Reach-Inv reach).polled e in
    (
      i,
      push_answered i (ok a) s,
      push_answers i (ok a) caught live,
      live,
      ground arith,
      ground arith,
    )
push_settles {s} (err x) caught reach e =
    let (i, live) = (Reach-Inv reach).polled e in
    (
      i,
      push_answered i (err x) s,
      push_answers i (err x) caught live,
      live,
      ground arith,
      ground arith,
    )

-- `_fail` does not cancel the push task. If a code submitted for an earlier login fails upstream
-- while a later login is in `push`, the session is `failed` and a task still polls.
pub stale_submit_leaves_push :
    {name : String} {tfa_timeout n : ℕ} {s : Session} (e : Exc)
    → Reach name tfa_timeout s
    → s.state ≡ SessionState.push
    → s.submits ≡ suc n
    → is_upstream e ≡ true
    → (t : Session) × Step s t
      × (t.state ≡ SessionState.failed)
      × (i : ℕ) × (t.pushes i ≡ some running)
unfolding submit_answered
stale_submit_leaves_push {n} {s} e r pushed sent upstream =
    let (i, live) = (Reach-Inv r).polled pushed in
    (_, submit_answers (err e) n sent, ground arith, i, ground arith)
