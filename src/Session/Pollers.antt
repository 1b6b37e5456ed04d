-- ===== src/Session/Pollers.antt =====
-- The tasks that poll for an approval (tr_bridge/application/session.py: `_run_push_confirmation`,
-- `_cancel_push_task`).
mod Tests
use trade_republic_bridge.Base.{ℕ, ◌<◌, String, ◌≡◌, ◌≢◌, none, some, true, Result, ok, err, arith}
use trade_republic_bridge.Domain.{SessionState, LoginChallenge, Exc}
use trade_republic_bridge.Session.{
  Session, running, cancelling, init, resume, acquire, enter_login, login_resumed, login_challenged,
  enter_submit, submit_answered, run_timeout, push_answered, push_cancelled, answers_push,
}
use trade_republic_bridge.Session.Steps.{
  Step, login_arrives, login_wakes, login_leaves, login_resumes, login_challenges, submit_arrives,
  submit_answers, timer_fires, timer_unwinds, push_answers, push_unwinds, push_drops, Reach,
  started, stepped,
}
use trade_republic_bridge.Session.Invariant.{Reach-Inv}
use trade_republic_bridge.Session.Timeout.{settled_state}

-- The task that `_push_task` refers to is running: it has neither ended nor been cancelled.
abbrev IsPolling : Session → Type 0
IsPolling s = (i : ℕ) → s.push_task ≡ some i → s.pushes i ≡ some running

challenged-IsPolling :
    (r : Result Exc LoginChallenge) (s : Session) → IsPolling s → IsPolling (login_challenged r s).1
unfolding login_challenged
challenged-IsPolling (ok LoginChallenge.push) s h i e = ground arith
challenged-IsPolling (ok LoginChallenge.authenticator) s h i e = ground (arith, h i)
challenged-IsPolling (err x) s h i e = ground (arith, h i)

Step-IsPolling : {s t : Session} → Step s t → IsPolling s → IsPolling t
unfolding acquire enter_login login_resumed enter_submit submit_answered run_timeout push_answered
    push_cancelled
Step-IsPolling login_arrives h i e = ground (arith, h i)
Step-IsPolling (login_wakes n w f) h i e = ground (arith, h i)
Step-IsPolling (login_leaves n w) h i e = h i e
Step-IsPolling (login_resumes r held) h i e = ground (arith, h i)
Step-IsPolling {s} (login_challenges r held) h i e = challenged-IsPolling r s h i e
Step-IsPolling submit_arrives h i e = ground (arith, h i)
Step-IsPolling (submit_answers r n w) h i e = ground (arith, h i)
Step-IsPolling (timer_fires j live) h i e = ground (arith, h i)
Step-IsPolling (timer_unwinds j live) h i e = h i e
Step-IsPolling (push_answers j r caught live) h i e = ground (arith, h i)
Step-IsPolling (push_unwinds j live) h i e = ground (arith, h i)
Step-IsPolling (push_drops j live) h i e = ground (arith, h i)

Reach-IsPolling :
    {name : String} {tfa_timeout : ℕ} {s : Session} → Reach name tfa_timeout s → IsPolling s
unfolding init resume
Reach-IsPolling (started r) i e = ground arith
Reach-IsPolling (stepped r st) i e = Step-IsPolling st (Reach-IsPolling r) i e

-- When the timer of a reachable session in `push` fires while `_push_task` refers to a task, that task
-- is cancelled: the step leaves the session in `failed`, with the task on its way out and no
-- reference to it.
timeout_stops_push :
    {name : String} {tfa_timeout : ℕ} {s : Session} (i j : ℕ)
    → Reach name tfa_timeout s
    → s.state ≡ SessionState.push
    → s.push_task ≡ some i
    → s.timers j ≡ some running
    → (t : Session) × Step s t
      × (t.state ≡ SessionState.failed)
      × (t.pushes i ≡ some cancelling)
      × (t.push_task ≡ none)
unfolding run_timeout
timeout_stops_push {s} i j r pushed e live =
    let polling = Reach-IsPolling r i e in
    (run_timeout j s, timer_fires j live, ground arith, ground arith, ground arith)

-- The sessions that any number of steps leads to, new calls included.
pub data Later (s : Session) : Session → Type 0 where
  now : Later s s
  later : {t u : Session} → Later s t → Step t u → Later s u

-- Nothing refers to task `i` or will: its number is given away. It has not been cancelled.
abbrev IsLost : ℕ → Session → Type 0
IsLost i s = (s.push_task ≢ some i) × (i < s.next_task) × (s.pushes i ≢ some cancelling)

challenged-IsLost :
    (i : ℕ) (r : Result Exc LoginChallenge) (s : Session)
    → IsLost i s
    → IsLost i (login_challenged r s).1
unfolding login_challenged
challenged-IsLost i (ok LoginChallenge.push) s (a, b, c) =
    ((λ e. ground arith), ground arith, λ e. ground arith)
challenged-IsLost i (ok LoginChallenge.authenticator) s (a, b, c) =
    ((λ e. ground arith), ground arith, λ e. ground arith)
challenged-IsLost i (err x) s (a, b, c) = ((λ e. ground arith), ground arith, λ e. ground arith)

Step-IsLost : (i : ℕ) {s t : Session} → Step s t → IsLost i s → IsLost i t
unfolding acquire enter_login login_resumed enter_submit submit_answered run_timeout push_answered
    push_cancelled
Step-IsLost i login_arrives (a, b, c) = ((λ e. ground arith), ground arith, λ e. ground arith)
Step-IsLost i (login_wakes n w f) (a, b, c) = ((λ e. ground arith), ground arith, λ e. ground arith)
Step-IsLost i (login_leaves n w) h = h
Step-IsLost i (login_resumes r held) (a, b, c) =
    ((λ e. ground arith), ground arith, λ e. ground arith)
Step-IsLost i {s} (login_challenges r held) h = challenged-IsLost i r s h
Step-IsLost i submit_arrives (a, b, c) = ((λ e. ground arith), ground arith, λ e. ground arith)
Step-IsLost i (submit_answers r n w) (a, b, c) =
    ((λ e. ground arith), ground arith, λ e. ground arith)
Step-IsLost i (timer_fires j live) (a, b, c) =
    ((λ e. ground arith), ground arith, λ e. ground arith)
Step-IsLost i (timer_unwinds j live) h = h
Step-IsLost i (push_answers j r caught live) (a, b, c) =
    ((λ e. ground arith), ground arith, λ e. ground arith)
Step-IsLost i (push_unwinds j live) (a, b, c) =
    ((λ e. ground arith), ground arith, λ e. ground arith)
Step-IsLost i (push_drops j live) (a, b, c) = ((λ e. ground arith), ground arith, λ e. ground arith)

Later-IsLost : (i : ℕ) {s t : Session} → Later s t → IsLost i s → IsLost i t
Later-IsLost i now h = h
Later-IsLost i (later r st) h = Step-IsLost i st (Later-IsLost i r h)

lost : {i : ℕ} {s : Session} → IsLost i s → (u : Session) → Later s u → u.pushes i ≢ some cancelling
lost {i} h u r = (Later-IsLost i r h).2

-- A task that is there has a number that is given away.
numbered :
    {name : String} {tfa_timeout : ℕ} {s : Session} (i : ℕ)
    → Reach name tfa_timeout s
    → s.pushes i ≡ some running
    → i < s.next_task
numbered i r live = ground (arith, (Reach-Inv r).new_pushes i)

-- Where a task of an earlier login, that `_push_task` no longer refers to, still polls while the
-- session waits in `push` for the approval of a later login: when it gets its answer, an error fails
-- the later login and an approval confirms it, and either way its `finally` drops the reference to the
-- task of the later login. That task goes on polling, and whatever happens from then on, which logins
-- arrive and which timeouts fire, nothing ever cancels it.
pub stale_push_settles :
    {name : String} {tfa_timeout : ℕ} {s : Session} (r : Result Exc (Unit {0})) (old new : ℕ)
    → Reach name tfa_timeout s
    → s.state ≡ SessionState.push
    → s.push_task ≡ some new
    → s.pushes old ≡ some running
    → old ≢ new
    → answers_push r ≡ true
    → let t = push_answered old r s in
      Step s t
      × (t.state ≡ settled_state r)
      × (t.pushes new ≡ some running)
      × (t.push_task ≡ none)
      × ((u : Session) → Later t u → u.pushes new ≢ some cancelling)
unfolding push_answered
stale_push_settles {s} (ok a) old new reach pushed e live other caught =
    let polling = Reach-IsPolling reach new e in
    let given = numbered new reach polling in
    (
      push_answers old (ok a) caught live,
      ground arith,
      ground arith,
      ground arith,
      lost ((λ x. ground arith), ground arith, λ x. ground arith),
    )
stale_push_settles {s} (err x) old new reach pushed e live other caught =
    let polling = Reach-IsPolling reach new e in
    let given = numbered new reach polling in
    (
      push_answers old (err x) caught live,
      ground arith,
      ground arith,
      ground arith,
      lost ((λ x. ground arith), ground arith, λ x. ground arith),
    )
