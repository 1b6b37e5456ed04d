-- ===== src/Session.antt =====
-- tr_bridge/application/session.py: `InstanceSession`, one function for the code between two awaits.
--
-- asyncio runs such a stretch without interruption, so each is one step of `Session/Steps.antt`. A
-- record holds the object's fields and what the event loop knows of its coroutines: the two tables
-- of background tasks, the login that holds the lock, and how many calls wait.
pub mod Steps
pub mod Invariant
pub mod Transitions
pub mod Timeout
pub mod Pollers
pub mod Calls
pub mod Termination
pub mod Rest
pub mod Driven
pub mod Tests
use trade_republic_bridge.Base.{
  ℕ, suc, String, Bool, true, false, Option, none, some, [], ◌∷◌, Result, ok, err, if◌then◌else◌,
  ◌==◌, ◌&&◌, update,
}
use trade_republic_bridge.Domain.{
  SessionState, LoginChallenge, lit, quoted, DomainError, login_in_progress, session_expired,
  no_login_pending, Exc, domain, is_pending, is_upstream, is_caught,
}

-- A task that has not finished: running, or cancelled and not yet unwound.
pub data Phase : Type 0 where
  running cancelling : Phase

abbrev pub Tasks : Type 0
Tasks = ℕ → Option Phase

-- The await at which the login that holds `_lock` stands.
pub data Await : Type 0 where
  resuming starting : Await

pub record Session : Type 0 where
  pub name : String
  pub tfa_timeout : ℕ
  pub state : SessionState
  pub timeout_task : Option ℕ
  pub push_task : Option ℕ
  pub timers : Tasks  -- tasks that run `_run_timeout`
  pub pushes : Tasks  -- tasks that run `_run_push_confirmation`
  pub next_task : ℕ
  pub holder : Option Await  -- the login that is inside `async with self._lock`
  pub waiting : ℕ  -- logins that wait for the lock
  pub submits : ℕ  -- calls of `submit_2fa` inside `complete_login`

-- What a stretch of a coroutine ends in: an await, or the result of the call.
pub data Progress (A : Type 0) : Type 0 where
  awaits : Progress A
  returns : A → Progress A
  raises : Exc → Progress A

-- `__init__`
unfoldable pub init : String → ℕ → Session
init name tfa_timeout = record {
  name = name;
  tfa_timeout = tfa_timeout;
  state = SessionState.idle;
  timeout_task = none;
  push_task = none;
  timers = λ _. none;
  pushes = λ _. none;
  next_task = 0;
  holder = none;
  waiting = 0;
  submits = 0;
}

-- `task.cancel()` unless the task is `None` or done
abbrev cancel_task : Option ℕ → Tasks → Tasks
cancel_task none tasks = tasks
cancel_task (some i) tasks = elim (tasks i) [
  | none ↦ tasks
  | some _ ↦ update tasks i (some cancelling)
]

cancel_timeout : Session → Session
cancel_timeout s = record s { timers = cancel_task s.timeout_task s.timers; timeout_task = none }

cancel_push_task : Session → Session
cancel_push_task s = record s { pushes = cancel_task s.push_task s.pushes; push_task = none }

-- `_fail`
fail : Session → Session
unfolding cancel_timeout
fail s = cancel_timeout (record s { state = SessionState.failed })

-- `_schedule_timeout`
schedule_timeout : Session → Session
unfolding cancel_timeout
schedule_timeout s =
    let t = cancel_timeout s in
    record t {
      timers = update t.timers t.next_task (some running);
      timeout_task = some t.next_task;
      next_task = suc t.next_task;
    }

-- `self._push_task = asyncio.create_task(self._run_push_confirmation())`
spawn_push : Session → Session
spawn_push s = record s {
  pushes = update s.pushes s.next_task (some running);
  push_task = some s.next_task;
  next_task = suc s.next_task;
}

-- `resume`, after the await
unfoldable pub resume : Result Exc Bool → Session → Progress (Unit {0}) × Session
resume (ok true) s = (returns tt, record s { state = SessionState.confirmed })
resume (ok false) s = (returns tt, s)
resume (err e) s = (raises e, s)

abbrev pub in_progress : String → DomainError
in_progress name =
    login_in_progress (lit "Login already in progress for instance " ∷ quoted name ∷ [])

-- `start_login`, from the moment at which the lock is acquired
pub acquire : Session → Progress SessionState × Session
acquire s =
    if is_pending s.state
    then (raises (domain (in_progress s.name)), s)
    else (awaits, record s { holder = some resuming })

-- An `asyncio.Lock` is taken at once only if it is free and nobody waits for it.
abbrev pub is_free : Session → Bool
is_free s = elim s.holder [ none ↦ s.waiting == 0 | some _ ↦ false ]

-- `start_login`, from its call
pub enter_login : Session → Progress SessionState × Session
unfolding acquire
enter_login s =
    if is_pending s.state
    then (raises (domain (in_progress s.name)), s)
    else if is_free s
    then acquire s
    else (awaits, record s { waiting = suc s.waiting })

abbrev release : Session → Session
release s = record s { holder = none }

-- `except _UPSTREAM_ERRORS` of `start_login`, and the way out of `async with`
login_raised : Exc → Session → Progress SessionState × Session
unfolding fail
login_raised e s = (raises e, release (if is_upstream e then fail s else s))

-- `start_login`, after `await self._client.resume_session()`
pub login_resumed : Result Exc Bool → Session → Progress SessionState × Session
unfolding login_raised
login_resumed (ok true) s =
    (returns SessionState.confirmed, release (record s { state = SessionState.confirmed }))
login_resumed (ok false) s = (awaits, record s { holder = some starting })
login_resumed (err e) s = login_raised e s

-- `start_login`, after `await self._client.start_login()`
pub login_challenged : Result Exc LoginChallenge → Session → Progress SessionState × Session
unfolding schedule_timeout spawn_push login_raised
login_challenged (ok LoginChallenge.authenticator) s = (
  returns SessionState.authenticator,
  release (schedule_timeout (record s { state = SessionState.authenticator })),
)
login_challenged (ok LoginChallenge.push) s = (
  returns SessionState.push,
  release (schedule_timeout (spawn_push (record s { state = SessionState.push }))),
)
login_challenged (err e) s = login_raised e s

abbrev pub is_authenticator : SessionState → Bool
is_authenticator SessionState.authenticator = true
is_authenticator _ = false

abbrev is_push : SessionState → Bool
is_push SessionState.push = true
is_push _ = false

abbrev is_confirmed : SessionState → Bool
is_confirmed SessionState.confirmed = true
is_confirmed _ = false

-- `submit_2fa`, from its call
pub enter_submit : Session → Progress (Unit {0}) × Session
enter_submit s =
    if is_authenticator s.state
    then (awaits, record s { submits = suc s.submits })
    else (raises (domain (no_login_pending s.state)), s)

-- `submit_2fa`, after `await self._client.complete_login(code)`; `s` no longer counts this call
pub submit_answered : Result Exc (Unit {0}) → Session → Progress (Unit {0}) × Session
unfolding fail cancel_timeout
submit_answered (ok _) s =
    if is_authenticator s.state
    then (returns tt, cancel_timeout (record s { state = SessionState.confirmed }))
    else (returns tt, s)
submit_answered (err e) s = (raises e, if is_upstream e then fail s else s)

-- `fetch_timeline`, with what the port's call would give
unfoldable pub fetch_timeline : {A : Type 0} → Session → Result Exc A → Result Exc A
fetch_timeline s answer =
    if is_confirmed s.state
    then answer
    else err (
        domain (
          session_expired
            (lit "No valid session for instance " ∷ quoted s.name ∷ lit "; login required." ∷ [])))

-- `_run_timeout` in task `i`, after the sleep
pub run_timeout : ℕ → Session → Session
unfolding cancel_push_task
run_timeout i s =
    let t =
      if is_pending s.state
      then cancel_push_task (record s { state = SessionState.failed })
      else s in
    record t { timeout_task = none; timers = update t.timers i none }

-- `_run_push_confirmation` in task `i`, after the await; `finally` drops the reference.
push_ended : ℕ → Session → Session
push_ended i s = record s { push_task = none; pushes = update s.pushes i none }

-- The answer is a return or an `Exception`, so it is no cancellation.
abbrev pub answers_push : Result Exc (Unit {0}) → Bool
answers_push (ok _) = true
answers_push (err e) = is_caught e

pub push_answered : ℕ → Result Exc (Unit {0}) → Session → Session
unfolding push_ended cancel_timeout
push_answered i (ok _) s =
    push_ended i
      (if is_push s.state then cancel_timeout (record s { state = SessionState.confirmed }) else s)
push_answered i (err e) s = push_ended i (
    if is_caught e && is_push s.state
    then cancel_timeout (record s { state = SessionState.failed })
    else s)

-- The same task, woken by its cancellation.
pub push_cancelled : ℕ → Session → Session
unfolding push_ended
push_cancelled i s = push_ended i s
