-- ===== src/Session/Pollers/Tests.antt =====
-- Two logins whose tasks poll at once, and the theorems of Session/Pollers.antt applied to them.
use trade_republic_bridge.Base.{ℕ, ◌≡◌, ◌≢◌, refl, arith, false, none, some, ok, err}
use trade_republic_bridge.Domain.{SessionState, LoginChallenge}
use trade_republic_bridge.Session.{
  Session, running, cancelling, init, resume, enter_submit, run_timeout, submit_answered,
  push_answered,
}
use trade_republic_bridge.Session.Steps.{Step, Reach, stepped, submit_answers}
use trade_republic_bridge.Session.Calls.{start_login}
use trade_republic_bridge.Session.Calls.Runs.{start_login-Reach}
use trade_republic_bridge.Session.Pollers.{Later, stale_push_settles}
use trade_republic_bridge.Session.Tests.{pushed, pushed-Reach, pushed_submits, upstream}

-- The code of an earlier login fails upstream, and a later login waits for its approval.
abbrev failed : Session
failed = (submit_answered (err upstream) (record pushed { submits = 0 })).1

failed-Reach : Reach "main" 120 failed
failed-Reach = stepped pushed-Reach (submit_answers (err upstream) 0 pushed_submits)

abbrev again : Session
again = (start_login (ok false) (ok LoginChallenge.push) failed).1

again-Reach : Reach "main" 120 again
again-Reach = start_login-Reach (ok false) (ok LoginChallenge.push) failed-Reach

again_pushes :
    (again.state ≡ SessionState.push)
    × (again.push_task ≡ some 3)
    × (again.pushes 1 ≡ some running)
    × (again.timers 4 ≡ some running)
unfolding resume init start_login enter_submit run_timeout submit_answered
again_pushes = (refl, refl, refl, refl)

not_same : ◌≢◌ {A = ℕ} 1 3
not_same e = ground arith

stale_push_settles_example :
    let t = push_answered 1 (err upstream) again in
    Step again t
    × (t.state ≡ SessionState.failed)
    × (t.pushes 3 ≡ some running)
    × (t.push_task ≡ none)
    × ((u : Session) → Later t u → u.pushes 3 ≢ some cancelling)
stale_push_settles_example =
    stale_push_settles (err upstream) 1 3 again-Reach again_pushes.0 again_pushes.1 again_pushes.2
      not_same refl
