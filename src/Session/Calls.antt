-- ===== src/Session/Calls.antt =====
-- Whole calls of `InstanceSession` (tr_bridge/application/session.py): `start_login` and `submit_2fa`
-- from call to return, when no other coroutine of the session runs in between.
pub mod Runs
use trade_republic_bridge.Base.{
  ℕ, zero, suc, String, ◌≡◌, refl, ◌≢◌, inl, inr, Bool, true, false, none, Result, ok, err, ◌↔◌,
  arith, Option-cases, if◌then◌else◌, Bool-cases,
}
use trade_republic_bridge.Domain.{
  SessionState, LoginChallenge, Exc, domain, no_login_pending, is_pending, is_upstream,
}
use trade_republic_bridge.Session.{
  Session, Progress, awaits, returns, raises, acquire, enter_login, login_resumed, login_challenged,
  enter_submit, submit_answered, in_progress, is_free,
}
use trade_republic_bridge.Session.Steps.{Reach}
use trade_republic_bridge.Session.Invariant.{Inv, Reach-Inv}

-- A call goes on after its await; a call that has ended stays ended.
abbrev pub continue :
    {A : Type 0} → Progress A × Session → (Session → Progress A × Session) → Progress A × Session
continue (awaits, s) next = next s
continue (returns a, s) next = (returns a, s)
continue (raises e, s) next = (raises e, s)

-- `start_login`, with the answers of `resume_session` and of the port's `start_login`; a call that
-- finds the lock taken, or others waiting for it, still waits.
unfoldable pub start_login :
    Result Exc Bool → Result Exc LoginChallenge → Session → Progress SessionState × Session
unfolding enter_login login_resumed login_challenged
start_login resumed challenge s =
    if is_free s
    then continue (enter_login s)
        (λ a. continue (login_resumed resumed a) (login_challenged challenge))
    else enter_login s

abbrev pub one_less : ℕ → ℕ
one_less zero = zero
one_less (suc n) = n

-- `submit_2fa`, with the answer of `complete_login`
unfoldable pub submit_2fa : Result Exc (Unit {0}) → Session → Progress (Unit {0}) × Session
unfolding enter_submit submit_answered
submit_2fa answer s =
    continue (enter_submit s)
      (λ a. submit_answered answer (record a { submits = one_less a.submits }))

-- No login is under way.
pub record IsQuiet (s : Session) : Type 0 where
  pub settled : is_pending s.state ≡ false
  pub unlocked : s.holder ≡ none
  pub unqueued : s.waiting ≡ 0

-- What `start_login` promises: its result, and the state that it leaves.
abbrev login_result : Result Exc Bool → Result Exc LoginChallenge → Progress SessionState
login_result (ok true) _ = returns SessionState.confirmed
login_result (ok false) (ok LoginChallenge.authenticator) = returns SessionState.authenticator
login_result (ok false) (ok LoginChallenge.push) = returns SessionState.push
login_result (ok false) (err e) = raises e
login_result (err e) _ = raises e

abbrev pub login_state : Progress SessionState → SessionState → SessionState
login_state awaits before = before
login_state (returns after) _ = after
login_state (raises e) before = if is_upstream e then SessionState.failed else before

settled-no_timeout : {s : Session} → Inv s → is_pending s.state ≡ false → s.timeout_task ≡ none
settled-no_timeout {s} v settled = elim (Option-cases s.timeout_task) [
  | inl e ↦ e
  | inr (i, e) ↦ absurd (ground (arith, v.registered i e))
]

-- From a reachable session with no login under way, `start_login` returns or raises what its port
-- answers say, leaves the session in the state that it returns, in `failed` after an upstream error
-- and as it was after any other error, frees the lock, and has a timeout registered exactly when a
-- second factor is awaited.
pub start_login_lem :
    (resumed : Result Exc Bool) (challenge : Result Exc LoginChallenge) {name : String}
    {tfa_timeout : ℕ} (s : Session)
    → Reach name tfa_timeout s
    → IsQuiet s
    → let (result, t) = start_login resumed challenge s in
      (result ≡ login_result resumed challenge)
      × (t.state ≡ login_state result s.state)
      × (t.holder ≡ none)
      × ((t.timeout_task ≢ none) ↔ (is_pending t.state ≡ true))
unfolding start_login
start_login_lem (ok true) challenge s r q =
    ground (arith, settled-no_timeout (Reach-Inv r) q.settled)
start_login_lem (ok false) (ok LoginChallenge.authenticator) s r q =
    ground (arith, settled-no_timeout (Reach-Inv r) q.settled)
start_login_lem (ok false) (ok LoginChallenge.push) s r q =
    ground (arith, settled-no_timeout (Reach-Inv r) q.settled)
start_login_lem (ok false) (err e) s r q =
    ground (arith, settled-no_timeout (Reach-Inv r) q.settled)
start_login_lem (err e) challenge s r q = ground (arith, settled-no_timeout (Reach-Inv r) q.settled)

-- What `submit_2fa` promises, from the session `s`, by the answer of `complete_login`.
abbrev Submitted : Session → Result Exc (Unit {0}) → Progress (Unit {0}) × Session → Type 0
Submitted s (ok _) (result, t) =
    (result ≡ returns tt) × (t.state ≡ SessionState.confirmed) × (t.timeout_task ≡ none)
Submitted s (err e) (result, t) =
    (result ≡ raises e)
    × (if is_upstream e then (t.state ≡ SessionState.failed) × (t.timeout_task ≡ none) else (t ≡ s))

pending_submit :
    (answer : Result Exc (Unit {0})) (s : Session)
    → s.state ≡ SessionState.authenticator
    → Submitted s answer (submit_2fa answer s)
unfolding submit_2fa
pending_submit (ok a) s e = ground arith
pending_submit (err x) s e = elim (Bool-cases (is_upstream x)) [
  | inl upstream ↦ rw upstream (ground arith)
  | inr kept ↦ rw kept (ground arith)
]

refused_submit :
    (answer : Result Exc (Unit {0})) (s : Session)
    → s.state ≢ SessionState.authenticator
    → submit_2fa answer s ≡ (raises (domain (no_login_pending s.state)), s)
unfolding submit_2fa
refused_submit answer s other = ground arith

-- The same, in any state.
abbrev pub Outcome :
    SessionState → Session → Result Exc (Unit {0}) → Progress (Unit {0}) × Session → Type 0
Outcome SessionState.authenticator s answer r = Submitted s answer r
Outcome state s answer r = r ≡ (raises (domain (no_login_pending state)), s)

-- In `authenticator`, `submit_2fa` with an accepted code confirms the session and drops its timeout;
-- an upstream error fails it and drops its timeout; any other error, a rejected code among them,
-- leaves the session exactly as it was. The error is raised to the caller. In any other state it
-- raises `NoLoginPendingError` with that state, whatever the port would answer, and changes nothing.
pub submit_2fa-Outcome :
    (answer : Result Exc (Unit {0})) (s : Session) → Outcome s.state s answer (submit_2fa answer s)
submit_2fa-Outcome answer s = by_state s.state refl
  where
    refused :
        {state : SessionState}
        → s.state ≡ state
        → state ≢ SessionState.authenticator
        → submit_2fa answer s ≡ (raises (domain (no_login_pending state)), s)
    refused e other = ground (arith, refused_submit answer s)

    by_state :
        (state : SessionState) → s.state ≡ state → Outcome state s answer (submit_2fa answer s)
    by_state SessionState.authenticator e = pending_submit answer s e
    by_state SessionState.idle e = refused e (λ x. cc)
    by_state SessionState.push e = refused e (λ x. cc)
    by_state SessionState.confirmed e = refused e (λ x. cc)
    by_state SessionState.failed e = refused e (λ x. cc)

-- While a second factor is pending in a reachable session, a call of `start_login` raises
-- `LoginInProgressError` and changes nothing, so does one that waited for the lock, and no login is
-- inside the lock.
pending-login_refused :
    {name : String} {tfa_timeout : ℕ} {s : Session}
    → Reach name tfa_timeout s
    → is_pending s.state ≡ true
    → (enter_login s ≡ (raises (domain (in_progress s.name)), s))
      × (acquire s ≡ (raises (domain (in_progress s.name)), s))
      × (s.holder ≡ none)
unfolding enter_login
pending-login_refused r pending = ground (arith, (Reach-Inv r).guarded pending)
