-- ===== src/Session/Tests.antt =====
-- Concrete runs of a session, and the theorems of this directory applied to them.
use trade_republic_bridge.Base.{ℕ, ◌≤◌, ◌≡◌, refl, ◌≢◌, ◌↔◌, true, false, none, some, [], ok}
use trade_republic_bridge.Domain.{
  SessionState, LoginChallenge, Exc, domain, tr_upstream, is_pending,
}
use trade_republic_bridge.Session.{
  Session, running, init, resume, returns, enter_submit, run_timeout, submit_answered,
}
use trade_republic_bridge.Session.Steps.{
  Step, Reach, started, stepped, submit_arrives, submit_answers, timer_fires,
}
use trade_republic_bridge.Session.Invariant.{Inv, Reach-Inv}
use trade_republic_bridge.Session.Transitions.{Moves, Step-Moves, Approves, confirmed-Approves}
use trade_republic_bridge.Session.Timeout.{pending_times_out, stale_submit_leaves_push}
use trade_republic_bridge.Session.Termination.{Run, stays, runs, work, Run-bounded}
use trade_republic_bridge.Session.Rest.{IsAtRest, comes_to_rest}
use trade_republic_bridge.Session.Calls.Runs.{start_login-Reach}
use trade_republic_bridge.Session.Calls.{
  Outcome, start_login, submit_2fa, IsQuiet, start_login_lem, submit_2fa-Outcome,
}

abbrev pub fresh : Session
fresh = (resume (ok false) (init "main" 120)).1

pub fresh-Reach : Reach "main" 120 fresh
fresh-Reach = started (ok false)

pub fresh-IsQuiet : IsQuiet fresh
unfolding resume init
fresh-IsQuiet = record { settled = refl; unlocked = refl; unqueued = refl }

-- A login that asks for a code.
abbrev pub asked : Session
asked = (start_login (ok false) (ok LoginChallenge.authenticator) fresh).1

asked-Reach : Reach "main" 120 asked
asked-Reach = start_login-Reach (ok false) (ok LoginChallenge.authenticator) fresh-Reach

pub asked_state : asked.state ≡ SessionState.authenticator
unfolding resume init start_login
asked_state = refl

-- A login that waits for an approval, in a session whose earlier login left a code call behind.
abbrev pub sent : Session
sent = (enter_submit asked).1

sent-Reach : Reach "main" 120 sent
sent-Reach = stepped asked-Reach submit_arrives

abbrev timed_out : Session
timed_out = run_timeout 0 sent

timed_out-Reach : Reach "main" 120 timed_out
unfolding resume init start_login enter_submit
timed_out-Reach = stepped sent-Reach (timer_fires 0 refl)

timed_out-IsQuiet : IsQuiet timed_out
unfolding resume init start_login enter_submit run_timeout
timed_out-IsQuiet = record { settled = refl; unlocked = refl; unqueued = refl }

abbrev pub pushed : Session
pushed = (start_login (ok false) (ok LoginChallenge.push) timed_out).1

pub pushed-Reach : Reach "main" 120 pushed
pushed-Reach = start_login-Reach (ok false) (ok LoginChallenge.push) timed_out-Reach

pushed_state : pushed.state ≡ SessionState.push
unfolding resume init start_login enter_submit run_timeout
pushed_state = refl

pub pushed_submits : pushed.submits ≡ 1
unfolding resume init start_login enter_submit run_timeout
pushed_submits = refl

abbrev pub upstream : Exc
upstream = domain (tr_upstream [])

Reach-Inv_example : Inv pushed
Reach-Inv_example = Reach-Inv pushed-Reach

pending_asked : is_pending asked.state ≡ true
unfolding resume init start_login
pending_asked = refl

pending_times_out_example :
    (i : ℕ) × (asked.timeout_task ≡ some i)
    × (asked.timers i ≡ some running)
    × Step asked (run_timeout i asked)
    × ((run_timeout i asked).state ≡ SessionState.failed)
    × ((run_timeout i asked).timeout_task ≡ none)
    × ((run_timeout i asked).push_task ≡ none)
pending_times_out_example = pending_times_out asked-Reach pending_asked

stale_submit_leaves_push_example :
    (t : Session) × Step pushed t
    × (t.state ≡ SessionState.failed)
    × (i : ℕ) × (t.pushes i ≡ some running)
stale_submit_leaves_push_example =
    stale_submit_leaves_push upstream pushed-Reach pushed_state pushed_submits refl

Step-Moves_example : Moves asked.state timed_out.state
unfolding resume init start_login enter_submit
Step-Moves_example = Step-Moves sent-Reach (timer_fires 0 refl)

-- The code is accepted.
abbrev accept : Step sent (submit_answered (ok tt) (record sent { submits = 0 })).1
unfolding enter_submit init resume start_login
accept = submit_answers (ok tt) 0 refl

not_yet : sent.state ≢ SessionState.confirmed
unfolding resume init start_login enter_submit
not_yet e = cc

accepted : (submit_answered (ok tt) (record sent { submits = 0 })).1.state ≡ SessionState.confirmed
unfolding resume init start_login enter_submit submit_answered
accepted = refl

confirmed-Approves_example : Approves accept
confirmed-Approves_example = confirmed-Approves accept not_yet accepted

start_login_lem_example :
    let (result, t) = start_login (ok false) (ok LoginChallenge.push) timed_out in
    (result ≡ returns SessionState.push)
    × (t.state ≡ SessionState.push)
    × (t.holder ≡ none)
    × ((t.timeout_task ≢ none) ↔ (is_pending t.state ≡ true))
unfolding resume init start_login enter_submit run_timeout
start_login_lem_example =
    start_login_lem (ok false) (ok LoginChallenge.push) timed_out timed_out-Reach timed_out-IsQuiet

submit_2fa-Outcome_example : Outcome asked.state asked (ok tt) (submit_2fa (ok tt) asked)
submit_2fa-Outcome_example = submit_2fa-Outcome (ok tt) asked

-- The code call and the timer of a login that asked for a code.
timed_out-Run : Run sent 1 timed_out
unfolding resume init start_login enter_submit
timed_out-Run = runs stays (timer_fires 0 refl) refl

Run-bounded_example : 1 ≤ work sent
Run-bounded_example = Run-bounded sent-Reach timed_out-Run

work-sent : work sent ≡ 3
unfolding resume init start_login enter_submit
work-sent = refl

comes_to_rest_example : (n : ℕ) × (t : Session) × Run pushed n t × IsAtRest t
comes_to_rest_example = comes_to_rest pushed-Reach
