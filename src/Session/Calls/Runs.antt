-- ===== src/Session/Calls/Runs.antt =====
-- Whole calls of `start_login` as runs of steps (tr_bridge/application/session.py: `start_login`).
use trade_republic_bridge.Base.{
  ◌⊎◌, ◌∙◌, ap, ℕ, suc, String, ◌≡◌, ◌≢◌, refl, inl, inr, Bool, true, false, some, Result, ok, err,
  subst, sym, arith, Bool-cases,
}
use trade_republic_bridge.Domain.{SessionState, LoginChallenge, Exc, is_pending}
use trade_republic_bridge.Session.{
  Session, is_authenticator, enter_submit, submit_answered, Progress, awaits, resuming, enter_login,
  login_resumed, login_challenged, is_free,
}
use trade_republic_bridge.Session.Steps.{
  submit_arrives, submit_answers, login_arrives, login_resumes, login_challenges, Reach, stepped,
}
use trade_republic_bridge.Session.Calls.{start_login, submit_2fa, IsQuiet, continue}

abbrev inside : Session → Session
inside s = record s { holder = some resuming }

enter_login_quiet : {s : Session} → IsQuiet s → enter_login s ≡ (awaits, inside s)
unfolding enter_login
enter_login_quiet q = ground arith

start_login_inside :
    (resumed : Result Exc Bool) (challenge : Result Exc LoginChallenge) (s : Session)
    → is_free s ≡ true
    → start_login resumed challenge s
      ≡ continue
          (enter_login s)
          (λ a. continue (login_resumed resumed a) (login_challenged challenge))
unfolding start_login
start_login_inside resumed challenge s free = rw free refl

start_login_quiet :
    (resumed : Result Exc Bool) (challenge : Result Exc LoginChallenge) {s : Session}
    → IsQuiet s
    → start_login resumed challenge s
      ≡ continue (login_resumed resumed (inside s)) (login_challenged challenge)
start_login_quiet resumed challenge {s} q =
    start_login_inside resumed challenge s (ground arith)
    ∙ ap
        (λ (p : Progress SessionState × Session).
          continue p (λ a. continue (login_resumed resumed a) (login_challenged challenge)))
        (enter_login_quiet q)

-- A call that does not enter the lock.
start_login_outside :
    (resumed : Result Exc Bool) (challenge : Result Exc LoginChallenge) (s : Session)
    → (is_pending s.state ≡ true) ⊎ (is_free s ≡ false)
    → start_login resumed challenge s ≡ enter_login s
unfolding start_login
start_login_outside resumed challenge s (inl pending) = ground arith
start_login_outside resumed challenge s (inr taken) = rw taken refl

settled-IsQuiet : {s : Session} → is_free s ≡ true → is_pending s.state ≡ false → IsQuiet s
settled-IsQuiet free settled = record {
  settled = settled;
  unlocked = ground arith;
  unqueued = ground arith;
}

inside-Reach :
    {name : String} {tfa_timeout : ℕ} {s : Session}
    → Reach name tfa_timeout s
    → IsQuiet s
    → Reach name tfa_timeout (inside s)
inside-Reach {name} {tfa_timeout} r q =
    subst (λ (p : Progress SessionState × Session). Reach name tfa_timeout p.1)
      (enter_login_quiet q) (stepped r login_arrives)

-- The steps of a login after it has taken the lock.
inside_runs :
    (resumed : Result Exc Bool) (challenge : Result Exc LoginChallenge) {name : String}
    {tfa_timeout : ℕ} (s : Session)
    → Reach name tfa_timeout (inside s)
    → Reach name tfa_timeout
        (continue (login_resumed resumed (inside s)) (login_challenged challenge)).1
unfolding login_resumed
inside_runs (ok true) challenge s r = stepped r (login_resumes (ok true) refl)
inside_runs (ok false) challenge s r =
    stepped (stepped r (login_resumes (ok false) refl)) (login_challenges challenge refl)
inside_runs (err e) challenge s r = stepped r (login_resumes (err e) refl)

-- A whole call of `start_login` is a run of steps, whatever the port answers: with no login under
-- way it goes through the lock, and otherwise it is refused or waits.
pub start_login-Reach :
    (resumed : Result Exc Bool) (challenge : Result Exc LoginChallenge) {name : String}
    {tfa_timeout : ℕ} {s : Session}
    → Reach name tfa_timeout s
    → Reach name tfa_timeout (start_login resumed challenge s).1
start_login-Reach resumed challenge {name} {tfa_timeout} {s} r = elim (Bool-cases (is_free s)) [
  | inr taken ↦ outside (inr taken)
  | inl free ↦ elim (Bool-cases (is_pending s.state)) [
    | inl pending ↦ outside (inl pending)
    | inr settled ↦
        let q = settled-IsQuiet free settled in
        reached (sym (start_login_quiet resumed challenge q))
          (inside_runs resumed challenge s (inside-Reach r q))
  ]
]
  where
    reached :
        {p q : Progress SessionState × Session}
        → p ≡ q
        → Reach name tfa_timeout p.1
        → Reach name tfa_timeout q.1
    reached e = subst (λ (p : Progress SessionState × Session). Reach name tfa_timeout p.1) e

    outside :
        (is_pending s.state ≡ true) ⊎ (is_free s ≡ false)
        → Reach name tfa_timeout (start_login resumed challenge s).1
    outside h = reached (sym (start_login_outside resumed challenge s h)) (stepped r login_arrives)

-- So is a whole call of `submit_2fa`.
pub submit_2fa-Reach :
    (answer : Result Exc (Unit {0})) {name : String} {tfa_timeout : ℕ} {s : Session}
    → Reach name tfa_timeout s
    → Reach name tfa_timeout (submit_2fa answer s).1
unfolding submit_2fa enter_submit
submit_2fa-Reach answer {name} {tfa_timeout} {s} r = elim (Bool-cases (is_authenticator s.state)) [
  | inr refused ↦ rw refused r
  | inl awaited ↦
      let entered : Reach name tfa_timeout (record s { submits = suc s.submits }) =
        rw awaited at (stepped r submit_arrives) in
      rw awaited (stepped entered (submit_answers answer s.submits refl))
]

-- A login still waits only if the lock is taken, or others wait for it.
pub start_login-awaits :
    (resumed : Result Exc Bool) (challenge : Result Exc LoginChallenge) (s : Session)
    → (start_login resumed challenge s).0 ≡ awaits
    → is_free s ≡ false
unfolding start_login login_resumed login_challenged enter_login
start_login-awaits (ok true) challenge s e = ground arith
start_login-awaits (ok false) (ok LoginChallenge.authenticator) s e = ground arith
start_login-awaits (ok false) (ok LoginChallenge.push) s e = ground arith
start_login-awaits (ok false) (err x) s e = ground arith
start_login-awaits (err x) challenge s e = ground arith

-- A code is answered.
pub submit_2fa-ends :
    (answer : Result Exc (Unit {0})) (s : Session) → (submit_2fa answer s).0 ≢ awaits
unfolding submit_2fa enter_submit submit_answered
submit_2fa-ends (ok a) s e = ground arith
submit_2fa-ends (err x) s e = ground arith
