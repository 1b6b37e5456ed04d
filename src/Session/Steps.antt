-- ===== src/Session/Steps.antt =====
-- The interleavings of one `InstanceSession` (tr_bridge/application/session.py): calls arrive at any
-- time, the port answers anything, and the event loop chooses which coroutine runs next.
use trade_republic_bridge.Base.{ℕ, suc, String, ◌≡◌, Bool, true, none, some, Result, update}
use trade_republic_bridge.Domain.{LoginChallenge, Exc}
use trade_republic_bridge.Session.{
  Session, running, cancelling, resuming, starting, init, resume, acquire, enter_login,
  login_resumed, login_challenged, enter_submit, submit_answered, run_timeout, push_answered,
  answers_push, push_cancelled,
}

pub data Step (s : Session) : Session → Type 0 where
  login_arrives : Step s (enter_login s).1
  -- The lock is free, and the first waiter takes it.
  login_wakes :
      (n : ℕ) → s.waiting ≡ suc n → s.holder ≡ none → Step s (acquire (record s { waiting = n })).1
  -- A waiting call is cancelled.
  login_leaves : (n : ℕ) → s.waiting ≡ suc n → Step s (record s { waiting = n })
  login_resumes : (r : Result Exc Bool) → s.holder ≡ some resuming → Step s (login_resumed r s).1
  login_challenges :
      (r : Result Exc LoginChallenge) → s.holder ≡ some starting → Step s (login_challenged r s).1
  submit_arrives : Step s (enter_submit s).1
  submit_answers :
      (r : Result Exc (Unit {0})) (n : ℕ)
      → s.submits ≡ suc n
      → Step s (submit_answered r (record s { submits = n })).1
  timer_fires : (i : ℕ) → s.timers i ≡ some running → Step s (run_timeout i s)
  -- `CancelledError` leaves `_run_timeout` at its sleep, or before its first line.
  timer_unwinds :
      (i : ℕ) → s.timers i ≡ some cancelling → Step s (record s { timers = update s.timers i none })
  push_answers :
      (i : ℕ) (r : Result Exc (Unit {0}))
      → answers_push r ≡ true
      → s.pushes i ≡ some running
      → Step s (push_answered i r s)
  push_unwinds : (i : ℕ) → s.pushes i ≡ some cancelling → Step s (push_cancelled i s)
  -- A task that is cancelled before its first line runs no `finally`.
  push_drops :
      (i : ℕ) → s.pushes i ≡ some cancelling → Step s (record s { pushes = update s.pushes i none })

-- `resume` is awaited once, before the service takes requests; any number of steps follows.
pub data Reach (name : String) (tfa_timeout : ℕ) : Session → Type 0 where
  started : (r : Result Exc Bool) → Reach name tfa_timeout (resume r (init name tfa_timeout)).1
  stepped : {s t : Session} → Reach name tfa_timeout s → Step s t → Reach name tfa_timeout t
