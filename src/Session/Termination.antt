-- ===== src/Session/Termination.antt =====
-- What a session does when no new request comes (tr_bridge/application/session.py): the calls and
-- tasks that are under way come to an end.
use trade_republic_bridge.Base.{
  ℕ, zero, suc, ◌+◌, ◌*◌, ◌≤◌, ◌<◌, String, ◌≡◌, refl, Bool, true, false, Option, none, some,
  Result, ok, err, arith, update, Bool-cases, inl, inr, ◌==◌,
}
use trade_republic_bridge.Domain.{LoginChallenge, Exc}
use trade_republic_bridge.Session.{
  Session, Phase, running, cancelling, Tasks, Await, resuming, starting, cancel_task, acquire,
  login_resumed, login_challenged, submit_answered, run_timeout, push_answered, push_cancelled,
}
use trade_republic_bridge.Session.Steps.{
  Step, login_arrives, login_wakes, login_leaves, login_resumes, login_challenges, submit_arrives,
  submit_answers, timer_fires, timer_unwinds, push_answers, push_unwinds, push_drops, Reach,
}
use trade_republic_bridge.Session.Invariant.{Inv, Reach-Inv, Step-Inv}

abbrev weight : Option Phase → ℕ
weight none = 0
weight (some running) = 2
weight (some cancelling) = 1

-- The steps that the first `n` tasks of a table can still take.
abbrev pub total : ℕ → Tasks → ℕ
total zero tasks = 0
total (suc n) tasks = total n tasks + weight (tasks n)

abbrev at_await : Option Await → ℕ
at_await none = 0
at_await (some resuming) = 7
at_await (some starting) = 6

-- How much is left to do.
abbrev pub work : Session → ℕ
work s =
    total s.next_task s.timers
    + total s.next_task s.pushes
    + at_await s.holder
    + 8 * s.waiting
    + s.submits

-- A new call arrives in this step.
abbrev pub arrives : {s t : Session} → Step s t → Bool
arrives login_arrives = true
arrives submit_arrives = true
arrives _ = false

total-beyond :
    (n i : ℕ) (tasks : Tasks) (p : Option Phase)
    → n ≤ i
    → total n (update tasks i p) ≡ total n tasks
total-beyond zero i tasks p h = refl
total-beyond (suc n) i tasks p h = ground (arith, total-beyond n i tasks p)

total-update :
    (n i : ℕ) (tasks : Tasks) (p : Option Phase)
    → i < n
    → total n (update tasks i p) + weight (tasks i) ≡ total n tasks + weight p
total-update zero i tasks p h = absurd (ground arith)
total-update (suc n) i tasks p h = elim (Bool-cases (i == n)) [
  | inl same ↦ ground (arith, total-beyond n i tasks p)
  | inr other ↦ ground (arith, total-update n i tasks p)
]

weight-cancel :
    (o : Option ℕ) (tasks : Tasks) (j : ℕ) → weight (cancel_task o tasks j) ≤ weight (tasks j)
weight-cancel none tasks j = ground arith
weight-cancel (some i) tasks j = ground arith

-- A cancelled task has no more to do than before.
total-cancel :
    (n : ℕ) (o : Option ℕ) (tasks : Tasks) → total n (cancel_task o tasks) ≤ total n tasks
total-cancel zero o tasks = ground arith
total-cancel (suc n) o tasks = ground (arith, total-cancel n o tasks, weight-cancel o tasks n)

-- Only the tasks that were made are in the tables.
made : {s : Session} {i : ℕ} {p : Phase} → Inv s → s.timers i ≡ some p → i < s.next_task
made {s} {i} v e = ground (arith, v.new_timers i)

made_push : {s : Session} {i : ℕ} {p : Phase} → Inv s → s.pushes i ≡ some p → i < s.next_task
made_push {s} {i} v e = ground (arith, v.new_pushes i)

total-new :
    (n : ℕ) (tasks : Tasks) → total (suc n) (update tasks n (some running)) ≡ total n tasks + 2
total-new n tasks = ground (arith, total-beyond n n tasks (some running))

login_challenged-work :
    {s : Session} (r : Result Exc LoginChallenge)
    → Inv s
    → s.holder ≡ some starting
    → work (login_challenged r s).1 < work s
unfolding login_challenged
login_challenged-work {s} (ok LoginChallenge.authenticator) v held = ground (
  arith,
  total-new s.next_task (cancel_task s.timeout_task s.timers),
  total-cancel s.next_task s.timeout_task s.timers,
  v.new_pushes s.next_task,
)
login_challenged-work {s} (ok LoginChallenge.push) v held = ground (
  arith,
  total-new s.next_task s.pushes,
  total-new (suc s.next_task) (cancel_task s.timeout_task s.timers),
  total-cancel (suc s.next_task) s.timeout_task s.timers,
  v.new_timers s.next_task,
  v.new_pushes (suc s.next_task),
)
login_challenged-work {s} (err e) v held =
    ground (arith, total-cancel s.next_task s.timeout_task s.timers)

pub work-decreases :
    {s t : Session} → Inv s → (st : Step s t) → arrives st ≡ false → work t < work s
unfolding acquire login_resumed login_challenged submit_answered run_timeout push_answered
    push_cancelled
work-decreases v login_arrives a = cc
work-decreases {s} v (login_wakes n w free) a = ground arith
work-decreases {s} v (login_leaves n w) a = ground arith
work-decreases {s} v (login_resumes r held) a =
    ground (arith, total-cancel s.next_task s.timeout_task s.timers)
work-decreases {s} v (login_challenges r held) a = login_challenged-work r v held
work-decreases v submit_arrives a = cc
work-decreases {s} v (submit_answers r n w) a =
    ground (arith, total-cancel s.next_task s.timeout_task s.timers)
work-decreases {s} v (timer_fires i live) a = ground (
  arith,
  made v live,
  total-update s.next_task i s.timers none,
  total-cancel s.next_task s.push_task s.pushes,
)
work-decreases {s} v (timer_unwinds i over) a =
    ground (arith, made v over, total-update s.next_task i s.timers none)
work-decreases {s} v (push_answers i r caught live) a = ground (
  arith,
  made_push v live,
  total-update s.next_task i s.pushes none,
  total-cancel s.next_task s.timeout_task s.timers,
)
work-decreases {s} v (push_unwinds i over) a =
    ground (arith, made_push v over, total-update s.next_task i s.pushes none)
work-decreases {s} v (push_drops i over) a =
    ground (arith, made_push v over, total-update s.next_task i s.pushes none)

-- A run of `n` steps in which no new call arrives.
pub data Run (s : Session) : ℕ → Session → Type 0 where
  stays : Run s zero s
  runs :
      {n : ℕ} {t u : Session} → Run s n t → (st : Step t u) → arrives st ≡ false → Run s (suc n) u

pub Run-Inv : {s t : Session} {n : ℕ} → Inv s → Run s n t → Inv t
Run-Inv v stays = v
Run-Inv v (runs r st a) = Step-Inv st (Run-Inv v r)

Inv-bounded : {s t : Session} {n : ℕ} → Inv s → Run s n t → n + work t ≤ work s
Inv-bounded v stays = omega arith
Inv-bounded v (runs r st a) = omega (arith, Inv-bounded v r, work-decreases (Run-Inv v r) st a)

-- Every run of a reachable session in which no new call arrives ends: it has at most `work s` steps,
-- a number that counts the tasks, the login inside the lock, the logins that wait for it and the
-- codes that are being checked.
pub Run-bounded :
    {name : String} {tfa_timeout n : ℕ} {s t : Session}
    → Reach name tfa_timeout s
    → Run s n t
    → n ≤ work s
Run-bounded r run = omega (arith, Inv-bounded (Reach-Inv r) run)
