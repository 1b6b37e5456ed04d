-- ===== src/Session/Invariant.antt =====
-- What holds between any two steps of a session (tr_bridge/application/session.py).
use trade_republic_bridge.Base.{
  ℕ, ◌≤◌, String, ◌≡◌, ◌≢◌, Bool, true, none, some, Result, ok, err, arith, update,
}
use trade_republic_bridge.Domain.{SessionState, LoginChallenge, Exc, is_pending}
use trade_republic_bridge.Session.{
  Session, running, cancelling, resuming, starting, init, resume, acquire, enter_login,
  login_resumed, login_challenged, enter_submit, submit_answered, run_timeout, push_answered,
  answers_push, push_cancelled,
}
use trade_republic_bridge.Session.Steps.{
  Step, login_arrives, login_wakes, login_leaves, login_resumes, login_challenges, submit_arrives,
  submit_answers, timer_fires, timer_unwinds, push_answers, push_unwinds, push_drops, Reach,
  started, stepped,
}

pub record Inv (s : Session) : Type 0 where
  pub new_timers : (i : ℕ) → s.next_task ≤ i → s.timers i ≡ none
  pub new_pushes : (i : ℕ) → s.next_task ≤ i → s.pushes i ≡ none
  -- No login is inside the lock while a second factor is awaited.
  pub guarded : is_pending s.state ≡ true → s.holder ≡ none
  -- `_timeout_task` is the one timer that still counts, and it counts only while pending.
  pub registered :
      (i : ℕ) → s.timeout_task ≡ some i → (s.timers i ≡ some running) × (is_pending s.state ≡ true)
  pub counted : (i : ℕ) → s.timers i ≡ some running → s.timeout_task ≡ some i
  pub armed : is_pending s.state ≡ true → s.timeout_task ≢ none
  -- A session in `push` has a task that awaits the confirmation.
  pub polled : s.state ≡ SessionState.push → (i : ℕ) × (s.pushes i ≡ some running)

enter_login-Inv : {s : Session} → Inv s → Inv (enter_login s).1
unfolding enter_login
enter_login-Inv {s} v = record {
  new_timers = λ i h. ground (arith, v.new_timers i);
  new_pushes = λ i h. ground (arith, v.new_pushes i);
  guarded = ground (arith, v.guarded);
  registered = λ i h. ground (arith, v.registered i, v.new_timers s.next_task);
  counted = λ i h. ground (arith, v.counted i, v.registered i);
  armed = ground (arith, v.armed);
  polled = λ e. let (i, polling) = v.polled (ground arith) in (i, ground (arith, v.new_pushes i));
}

acquire-Inv : {s : Session} → Inv s → s.holder ≡ none → Inv (acquire s).1
unfolding acquire
acquire-Inv {s} v free = record {
  new_timers = λ i h. ground (arith, v.new_timers i);
  new_pushes = λ i h. ground (arith, v.new_pushes i);
  guarded = ground (arith, v.guarded);
  registered = λ i h. ground (arith, v.registered i, v.new_timers s.next_task);
  counted = λ i h. ground (arith, v.counted i, v.registered i);
  armed = ground (arith, v.armed);
  polled = λ e. let (i, polling) = v.polled (ground arith) in (i, ground (arith, v.new_pushes i));
}

login_resumed-Inv :
    {s : Session} (r : Result Exc Bool)
    → Inv s
    → s.holder ≡ some resuming
    → Inv (login_resumed r s).1
unfolding login_resumed
login_resumed-Inv {s} r v held = record {
  new_timers = λ i h. ground (arith, v.new_timers i);
  new_pushes = λ i h. ground (arith, v.new_pushes i);
  guarded = ground (arith, v.guarded);
  registered = λ i h. ground (arith, v.registered i, v.new_timers s.next_task);
  counted = λ i h. ground (arith, v.counted i, v.registered i);
  armed = ground (arith, v.armed);
  polled = λ e. let (i, polling) = v.polled (ground arith) in (i, ground (arith, v.new_pushes i));
}

-- A login that ends in `push` has just made its task.
login_challenged-polled :
    {s : Session} (r : Result Exc LoginChallenge)
    → Inv s
    → s.holder ≡ some starting
    → (login_challenged r s).1.state ≡ SessionState.push
    → (i : ℕ) × ((login_challenged r s).1.pushes i ≡ some running)
unfolding login_challenged
login_challenged-polled {s} (ok LoginChallenge.push) v held e = (s.next_task, ground arith)
login_challenged-polled (ok LoginChallenge.authenticator) v held e = cc
login_challenged-polled (err x) v held e =
    let (i, polling) = v.polled (ground arith) in (i, ground arith)

login_challenged-Inv :
    {s : Session} (r : Result Exc LoginChallenge)
    → Inv s
    → s.holder ≡ some starting
    → Inv (login_challenged r s).1
unfolding login_challenged
login_challenged-Inv {s} r v held = record {
  new_timers = λ i h. ground (arith, v.new_timers i);
  new_pushes = λ i h. ground (arith, v.new_pushes i);
  guarded = ground (arith, v.guarded);
  registered = λ i h. ground (arith, v.registered i, v.new_timers s.next_task);
  counted = λ i h. ground (arith, v.counted i, v.registered i);
  armed = ground (arith, v.armed);
  polled = login_challenged-polled r v held;
}

enter_submit-Inv : {s : Session} → Inv s → Inv (enter_submit s).1
unfolding enter_submit
enter_submit-Inv {s} v = record {
  new_timers = λ i h. ground (arith, v.new_timers i);
  new_pushes = λ i h. ground (arith, v.new_pushes i);
  guarded = ground (arith, v.guarded);
  registered = λ i h. ground (arith, v.registered i, v.new_timers s.next_task);
  counted = λ i h. ground (arith, v.counted i, v.registered i);
  armed = ground (arith, v.armed);
  polled = λ e. let (i, polling) = v.polled (ground arith) in (i, ground (arith, v.new_pushes i));
}

submit_answered-Inv :
    {s : Session} (r : Result Exc (Unit {0})) → Inv s → Inv (submit_answered r s).1
unfolding submit_answered
submit_answered-Inv {s} r v = record {
  new_timers = λ i h. ground (arith, v.new_timers i);
  new_pushes = λ i h. ground (arith, v.new_pushes i);
  guarded = ground (arith, v.guarded);
  registered = λ i h. ground (arith, v.registered i, v.new_timers s.next_task);
  counted = λ i h. ground (arith, v.counted i, v.registered i);
  armed = ground (arith, v.armed);
  polled = λ e. let (i, polling) = v.polled (ground arith) in (i, ground (arith, v.new_pushes i));
}

run_timeout-Inv : {s : Session} (j : ℕ) → Inv s → s.timers j ≡ some running → Inv (run_timeout j s)
unfolding run_timeout
run_timeout-Inv {s} j v live = record {
  new_timers = λ i h. ground (arith, v.new_timers i);
  new_pushes = λ i h. ground (arith, v.new_pushes i);
  guarded = ground (arith, v.guarded);
  registered = λ i h. ground (arith, v.registered i, v.new_timers s.next_task);
  counted = λ i h. ground (arith, v.counted i, v.counted j, v.registered i);
  armed = ground (arith, v.armed);
  polled = λ e. let (i, polling) = v.polled (ground arith) in (i, ground (arith, v.new_pushes i));
}

push_answered-Inv :
    {s : Session} (j : ℕ) (r : Result Exc (Unit {0}))
    → answers_push r ≡ true
    → Inv s
    → Inv (push_answered j r s)
unfolding push_answered
push_answered-Inv {s} j r caught v = record {
  new_timers = λ i h. ground (arith, v.new_timers i);
  new_pushes = λ i h. ground (arith, v.new_pushes i);
  guarded = ground (arith, v.guarded);
  registered = λ i h. ground (arith, v.registered i, v.new_timers s.next_task);
  counted = λ i h. ground (arith, v.counted i, v.registered i);
  armed = ground (arith, v.armed);
  polled = λ e. let (i, polling) = v.polled (ground arith) in (i, ground (arith, v.new_pushes i));
}

push_cancelled-Inv :
    {s : Session} (j : ℕ) → Inv s → s.pushes j ≡ some cancelling → Inv (push_cancelled j s)
unfolding push_cancelled
push_cancelled-Inv {s} j v over = record {
  new_timers = λ i h. ground (arith, v.new_timers i);
  new_pushes = λ i h. ground (arith, v.new_pushes i);
  guarded = ground (arith, v.guarded);
  registered = λ i h. ground (arith, v.registered i, v.new_timers s.next_task);
  counted = λ i h. ground (arith, v.counted i, v.registered i);
  armed = ground (arith, v.armed);
  polled = λ e. let (i, polling) = v.polled (ground arith) in (i, ground (arith, v.new_pushes i));
}

-- The counts of calls play no part.
calls-Inv :
    {s : Session}
    → Inv s
    → (waiting submits : ℕ) → Inv (record s { waiting = waiting; submits = submits })
calls-Inv v waiting submits = record {
  new_timers = v.new_timers;
  new_pushes = v.new_pushes;
  guarded = v.guarded;
  registered = v.registered;
  counted = v.counted;
  armed = v.armed;
  polled = v.polled;
}

timer_unwound-Inv :
    {s : Session} (j : ℕ)
    → Inv s
    → s.timers j ≡ some cancelling
    → Inv (record s { timers = update s.timers j none })
timer_unwound-Inv {s} j v over = record {
  new_timers = λ i h. ground (arith, v.new_timers i);
  new_pushes = v.new_pushes;
  guarded = v.guarded;
  registered = λ i h. ground (arith, v.registered i);
  counted = λ i h. ground (arith, v.counted i);
  armed = v.armed;
  polled = v.polled;
}

push_dropped-Inv :
    {s : Session} (j : ℕ)
    → Inv s
    → s.pushes j ≡ some cancelling
    → Inv (record s { pushes = update s.pushes j none })
push_dropped-Inv {s} j v over = record {
  new_timers = v.new_timers;
  new_pushes = λ i h. ground (arith, v.new_pushes i);
  guarded = v.guarded;
  registered = v.registered;
  counted = v.counted;
  armed = v.armed;
  polled = λ e. let (i, polling) = v.polled e in (i, ground arith);
}

init-Inv :
    (name : String) (tfa_timeout : ℕ) (r : Result Exc Bool)
    → Inv (resume r (init name tfa_timeout)).1
unfolding init resume
init-Inv name tfa_timeout r = record {
  new_timers = λ i h. ground arith;
  new_pushes = λ i h. ground arith;
  guarded = ground arith;
  registered = λ i h. ground arith;
  counted = λ i h. ground arith;
  armed = ground arith;
  polled = λ e. absurd (ground arith);
}

-- Every step keeps the invariant.
pub Step-Inv : {s t : Session} → Step s t → Inv s → Inv t
Step-Inv login_arrives v = enter_login-Inv v
Step-Inv {s} (login_wakes n w free) v = acquire-Inv (calls-Inv v n s.submits) free
Step-Inv {s} (login_leaves n w) v = calls-Inv v n s.submits
Step-Inv (login_resumes r held) v = login_resumed-Inv r v held
Step-Inv (login_challenges r held) v = login_challenged-Inv r v held
Step-Inv submit_arrives v = enter_submit-Inv v
Step-Inv {s} (submit_answers r n w) v = submit_answered-Inv r (calls-Inv v s.waiting n)
Step-Inv (timer_fires i live) v = run_timeout-Inv i v live
Step-Inv (timer_unwinds i over) v = timer_unwound-Inv i v over
Step-Inv (push_answers i r caught live) v = push_answered-Inv i r caught v
Step-Inv (push_unwinds i over) v = push_cancelled-Inv i v over
Step-Inv (push_drops i over) v = push_dropped-Inv i v over

-- Every reachable session satisfies `Inv`: no login is inside the lock while a second factor is
-- awaited, exactly one timer counts then and none otherwise, and in `push` a task polls.
pub Reach-Inv : {name : String} {tfa_timeout : ℕ} {s : Session} → Reach name tfa_timeout s → Inv s
Reach-Inv {name} {tfa_timeout} (started r) = init-Inv name tfa_timeout r
Reach-Inv (stepped r st) = Step-Inv st (Reach-Inv r)
