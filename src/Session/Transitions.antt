-- ===== src/Session/Transitions.antt =====
-- How the state of a session moves (tr_bridge/application/session.py, and the transitions listed at
-- its top).
use trade_republic_bridge.Base.{ℕ, String, ◌≡◌, refl, ◌≢◌, ◌⊎◌, inl, true, false, ok, err, arith}
use trade_republic_bridge.Domain.{SessionState, is_pending}
use trade_republic_bridge.Session.{
  Session, acquire, enter_login, login_resumed, login_challenged, enter_submit, submit_answered,
  run_timeout, push_answered, push_cancelled,
}
use trade_republic_bridge.Session.Steps.{
  Step, login_arrives, login_wakes, login_leaves, login_resumes, login_challenges, submit_arrives,
  submit_answers, timer_fires, timer_unwinds, push_answers, push_unwinds, push_drops, Reach,
}
use trade_republic_bridge.Session.Invariant.{Inv, Reach-Inv}

-- The state stays, settles in `confirmed` or `failed`, or leaves a settled state for a second factor.
abbrev pub Moves : SessionState → SessionState → Type 0
Moves a b =
    (b ≡ a)
    ⊎ (b ≡ SessionState.confirmed)
    ⊎ (b ≡ SessionState.failed)
    ⊎ ((is_pending a ≡ false) × (is_pending b ≡ true))

Inv-Moves : {s t : Session} → Inv s → Step s t → Moves s.state t.state
unfolding acquire enter_login enter_submit push_cancelled login_resumed login_challenged
    submit_answered run_timeout push_answered
Inv-Moves v login_arrives = ground arith
Inv-Moves v (login_wakes n w free) = ground arith
Inv-Moves v (login_leaves n w) = inl refl
Inv-Moves v (login_resumes x held) = ground arith
Inv-Moves {s} v (login_challenges x held) = ground (arith, v.guarded)
Inv-Moves v submit_arrives = ground arith
Inv-Moves {s} v (submit_answers x n w) = ground arith
Inv-Moves v (timer_fires i live) = ground arith
Inv-Moves v (timer_unwinds i over) = inl refl
Inv-Moves v (push_answers i x caught live) = ground arith
Inv-Moves v (push_unwinds i over) = inl refl
Inv-Moves v (push_drops i over) = inl refl

-- In any reachable session a step moves the state as `Moves` says: it stays, it settles in
-- `confirmed` or `failed`, or a second factor is asked for from a state in which none was pending.
pub Step-Moves :
    {name : String} {tfa_timeout : ℕ} {s t : Session}
    → Reach name tfa_timeout s
    → Step s t
    → Moves s.state t.state
Step-Moves r st = Inv-Moves (Reach-Inv r) st

-- A step whose answer from the port confirms the session: a resumed web session, an accepted code
-- while a code is awaited, an approval while one is awaited.
abbrev pub Approves : {s t : Session} → Step s t → Type 0
Approves (login_resumes r _) = r ≡ ok true
Approves {s} (submit_answers r _ _) = (s.state ≡ SessionState.authenticator) × (r ≡ ok tt)
Approves {s} (push_answers _ r _ _) = (s.state ≡ SessionState.push) × (r ≡ ok tt)
Approves _ = ⊥

-- A session becomes `confirmed` only by a step in which Trade Republic confirms it: a resumed web
-- session, a code accepted while in `authenticator`, or an approval while in `push`.
pub confirmed-Approves :
    {s t : Session}
    → (st : Step s t) → s.state ≢ SessionState.confirmed
    → t.state ≡ SessionState.confirmed
    → Approves st
unfolding acquire enter_login enter_submit push_cancelled login_resumed login_challenged
    submit_answered run_timeout push_answered
confirmed-Approves login_arrives other e = ground arith
confirmed-Approves (login_wakes n w free) other e = ground arith
confirmed-Approves (login_leaves n w) other e = absurd (other e)
confirmed-Approves (login_resumes x held) other e = ground arith
confirmed-Approves (login_challenges x held) other e = ground arith
confirmed-Approves submit_arrives other e = ground arith
confirmed-Approves (submit_answers (ok tt) n w) other e = ground arith
confirmed-Approves (submit_answers (err x) n w) other e = ground arith
confirmed-Approves (timer_fires i live) other e = ground arith
confirmed-Approves (timer_unwinds i over) other e = absurd (other e)
confirmed-Approves (push_answers i (ok tt) caught live) other e = ground arith
confirmed-Approves (push_answers i (err x) caught live) other e = ground arith
confirmed-Approves (push_unwinds i over) other e = absurd (other e)
confirmed-Approves (push_drops i over) other e = absurd (other e)
