-- ===== src/Session/Rest.antt =====
-- A session that is left alone comes to rest (tr_bridge/application/session.py): nothing stays
-- under way, and no second factor stays pending.
use trade_republic_bridge.Base.{
  ℕ, zero, suc, ◌<◌, String, ◌≡◌, refl, true, false, none, some, ok, arith, Option-cases, ◌⊎◌, inl,
  inr,
}
use trade_republic_bridge.Domain.{LoginChallenge, is_pending}
use trade_republic_bridge.Session.{
  Session, Phase, running, cancelling, Tasks, Await, resuming, starting,
}
use trade_republic_bridge.Session.Steps.{
  Step, login_wakes, login_resumes, login_challenges, submit_answers, timer_fires, timer_unwinds,
  push_answers, push_unwinds, Reach,
}
use trade_republic_bridge.Session.Invariant.{Inv, Reach-Inv}
use trade_republic_bridge.Session.Termination.{
  total, work, arrives, Run, stays, runs, Run-Inv, work-decreases,
}

-- A session that can move without a new call.
abbrev CanMove : Session → Type 0
CanMove s = (t : Session) × (st : Step s t) × (arrives st ≡ false)

find_task :
    (n : ℕ) (tasks : Tasks) → (total n tasks ≡ 0) ⊎ ((i : ℕ) × (p : Phase) × (tasks i ≡ some p))
find_task zero tasks = inl refl
find_task (suc n) tasks = elim (Option-cases (tasks n)) [
  | inl e ↦ elim (find_task n tasks) [ inl z ↦ inl (ground arith) | inr found ↦ inr found ]
  | inr (p, e) ↦ inr (n, p, e)
]

timer_moves : {s : Session} (i : ℕ) (p : Phase) → s.timers i ≡ some p → CanMove s
timer_moves i running e = (_, timer_fires i e, refl)
timer_moves i cancelling e = (_, timer_unwinds i e, refl)

push_moves : {s : Session} (i : ℕ) (p : Phase) → s.pushes i ≡ some p → CanMove s
push_moves i running e = (_, push_answers i (ok tt) refl e, refl)
push_moves i cancelling e = (_, push_unwinds i e, refl)

login_moves : {s : Session} (a : Await) → s.holder ≡ some a → CanMove s
login_moves resuming e = (_, login_resumes (ok true) e, refl)
login_moves starting e = (_, login_challenges (ok LoginChallenge.push) e, refl)

waiter_moves : {s : Session} (n : ℕ) → s.waiting ≡ n → s.holder ≡ none → (n ≡ 0) ⊎ CanMove s
waiter_moves zero e free = inl refl
waiter_moves (suc n) e free = inr (_, login_wakes n e free, refl)

submit_moves : {s : Session} (n : ℕ) → s.submits ≡ n → (n ≡ 0) ⊎ CanMove s
submit_moves zero e = inl refl
submit_moves (suc n) e = inr (_, submit_answers (ok tt) n e, refl)

tasks_move :
    (s : Session)
    → ((total s.next_task s.timers ≡ 0) × (total s.next_task s.pushes ≡ 0)) ⊎ CanMove s
tasks_move s = elim (find_task s.next_task s.timers) [
  | inr (i, p, e) ↦ inr (timer_moves i p e)
  | inl none_timed ↦ elim (find_task s.next_task s.pushes) [
    | inr (i, p, e) ↦ inr (push_moves i p e)
    | inl none_pushed ↦ inl (none_timed, none_pushed)
  ]
]

calls_move : (s : Session) → ((s.holder ≡ none) × (s.waiting ≡ 0) × (s.submits ≡ 0)) ⊎ CanMove s
calls_move s = elim (Option-cases s.holder) [
  | inr (a, e) ↦ inr (login_moves a e)
  | inl free ↦ elim (waiter_moves s.waiting refl free) [
    | inr moves ↦ inr moves
    | inl nobody ↦ elim (submit_moves s.submits refl) [
      | inr moves ↦ inr moves
      | inl nothing ↦ inl (free, nobody, nothing)
    ]
  ]
]

-- Nothing is under way: no login holds the lock or waits for it, no code is being checked, and no
-- background task is left.
pub record IsAtRest (s : Session) : Type 0 where
  pub free : s.holder ≡ none
  pub nobody : s.waiting ≡ 0
  pub nothing : s.submits ≡ 0
  pub no_timer : (i : ℕ) → s.timers i ≡ none
  pub no_push : (i : ℕ) → s.pushes i ≡ none
  pub settled : is_pending s.state ≡ false

total-none : (n : ℕ) (tasks : Tasks) (i : ℕ) → total n tasks ≡ 0 → i < n → tasks i ≡ none
total-none zero tasks i e h = absurd (ground arith)
total-none (suc n) tasks i e h = ground (arith, total-none n tasks i)

rest_of :
    {s : Session}
    → Inv s
    → (s.holder ≡ none) × (s.waiting ≡ 0) × (s.submits ≡ 0)
    → (total s.next_task s.timers ≡ 0) × (total s.next_task s.pushes ≡ 0)
    → IsAtRest s
rest_of {s} v calls tasks = record {
  free = calls.0;
  nobody = calls.1;
  nothing = calls.2;
  no_timer = no_timer;
  no_push = λ i. ground (arith, total-none s.next_task s.pushes i, v.new_pushes i);
  settled = settled (Option-cases s.timeout_task);
}
  where
    no_timer : (i : ℕ) → s.timers i ≡ none
    no_timer i = ground (arith, total-none s.next_task s.timers i, v.new_timers i)

    settled :
        (s.timeout_task ≡ none) ⊎ ((i : ℕ) × (s.timeout_task ≡ some i)) → is_pending s.state ≡ false
    settled (inl e) = ground (arith, v.armed)
    settled (inr (i, e)) = absurd (ground (arith, v.registered i e, no_timer i))

moves_or_rests : (s : Session) → Inv s → IsAtRest s ⊎ CanMove s
moves_or_rests s v = elim (calls_move s) [
  | inr moves ↦ inr moves
  | inl calls ↦ elim (tasks_move s) [
    | inr moves ↦ inr moves
    | inl tasks ↦ inl (rest_of v calls tasks)
  ]
]

-- From `t`, which a run has reached, with fuel for the work that is left.
rest_from :
    {s : Session} (fuel : ℕ) {n : ℕ} {t : Session}
    → Inv s
    → Run s n t
    → work t < fuel
    → (m : ℕ) × (u : Session) × Run s m u × IsAtRest u
rest_from zero v r h = absurd (omega arith)
rest_from (suc fuel) {n} {t} v r h = elim (moves_or_rests t (Run-Inv v r)) [
  | inl rests ↦ (n, t, r, rests)
  | inr (u, st, a) ↦
      rest_from fuel v (runs r st a) (omega (arith, work-decreases (Run-Inv v r) st a))
]

-- From every reachable session some run in which no new call arrives leads to a session at rest. There
-- no call and no task is under way, and the state is `idle`, `confirmed` or `failed`.
pub comes_to_rest :
    {name : String} {tfa_timeout : ℕ} {s : Session}
    → Reach name tfa_timeout s
    → (n : ℕ) × (t : Session) × Run s n t × IsAtRest t
comes_to_rest {s = s} r = rest_from (suc (work s)) (Reach-Inv r) stays (omega arith)

-- A reachable session rests as soon as it cannot move without a new call.
stopped-IsAtRest :
    {name : String} {tfa_timeout : ℕ} {s : Session}
    → Reach name tfa_timeout s
    → (CanMove s → ⊥)
    → IsAtRest s
stopped-IsAtRest {s = s} r stopped = elim (moves_or_rests s (Reach-Inv r)) [
  | inl rests ↦ rests
  | inr moves ↦ absurd (stopped moves)
]
