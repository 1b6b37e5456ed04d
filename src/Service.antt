-- ===== src/Service.antt =====
-- An answer of Trade Republic on its way through the service: the adapter
-- (tr_bridge/adapters/pytr/pytr_client.py), the session (tr_bridge/application/session.py) and the
-- exception handlers (tr_bridge/adapters/web/handlers.py).
pub mod Runs
pub mod Timeline
pub mod Login
pub mod Requests
pub mod Ready
mod Tests
use trade_republic_bridge.Base.{
  ℕ, String, ◌≡◌, ◌∙◌, refl, subst, true, false, Option, some, Result, ok, err, arith,
}
use trade_republic_bridge.Domain.{
  SessionState, LoginChallenge, Exc, Foreign, domain, rate_limited, code_rejected, is_upstream,
}
use trade_republic_bridge.Problem.{ProblemDetail, problem_response}
use trade_republic_bridge.Session.{Session, Progress, raises}
use trade_republic_bridge.Session.Steps.{Reach}
use trade_republic_bridge.Session.Calls.{
  start_login, submit_2fa, IsQuiet, start_login_lem, Outcome, submit_2fa-Outcome,
}
use trade_republic_bridge.Pytr.{Pytr, Client, complete_login}
use trade_republic_bridge.Pytr.Translate.{has_status}
use trade_republic_bridge.Pytr
use trade_republic_bridge.Pytr.Handle.{Has}
use trade_republic_bridge.Pytr.Errors.{
  is_rate_limited, is_code_rejected, start_login_status, Fails, complete_login_rejects,
}
use trade_republic_bridge.Web.Handlers.{of_exc, Starlette, handle}
use trade_republic_bridge.Web.Handlers.Answers.{handle_lem}

-- What a caller is answered: the error that a call raised becomes a problem with this status and code,
-- among responses whose other bodies are of the type `B`.
abbrev IsAnswered :
    {A : Type 0} → (B : Type 0) → Starlette → (ℕ → Option String) → Progress A → ℕ × String → Type 0
IsAnswered B server phrase result status_and_code =
    (e : Exc) × (d : ProblemDetail) × (result ≡ raises e)
    × (handle {A = B} server phrase (of_exc e) ≡ some (problem_response d))
    × ((d.status, d.code) ≡ status_and_code)

module _ {A : Type 0} (B : Type 0) (server : Starlette) (phrase : ℕ → Option String) where
  answers_limited :
      (result : Progress A) (e : Exc)
      → result ≡ raises e
      → is_rate_limited e ≡ true
      → IsAnswered B server phrase result (429, "rate_limited")
  answers_limited result (domain (rate_limited m)) r h =
      let (d, answered, status, _) =
        handle_lem server B phrase (of_exc (domain (rate_limited m))) in
      (domain (rate_limited m), d, r, answered, status)
  answers_limited result _ r h = cc

  answers_rejected :
      (result : Progress A) (e : Exc)
      → result ≡ raises e
      → is_code_rejected e ≡ true
      → IsAnswered B server phrase result (401, "code_rejected")
  answers_rejected result (domain (code_rejected m)) r h =
      let (d, answered, status, _) =
        handle_lem server B phrase (of_exc (domain (code_rejected m))) in
      (domain (code_rejected m), d, r, answered, status)
  answers_rejected result _ r h = cc

-- A login whose start raises an upstream error.
login_fails :
    (e : Exc) (challenge : Result Exc LoginChallenge) {name : String} {tfa_timeout : ℕ}
    (s : Session)
    → challenge ≡ err e
    → is_upstream e ≡ true
    → Reach name tfa_timeout s
    → IsQuiet s
    → ((start_login (ok false) challenge s).0 ≡ raises e)
      × ((start_login (ok false) challenge s).1.state ≡ SessionState.failed)
login_fails e challenge s same upstream reach quiet =
    let (result, state, _, _) = start_login_lem (ok false) (err e) s reach quiet in
    rw same (result, ground arith)

not_upstream : (e : Exc) → is_code_rejected e ≡ true → is_upstream e ≡ false
not_upstream (domain (code_rejected m)) h = refl
not_upstream _ h = cc

-- A code that is rejected while one is awaited.
submit_fails :
    (e : Exc) (answer : Result Exc (Unit {0})) (s : Session)
    → answer ≡ err e
    → is_code_rejected e ≡ true
    → s.state ≡ SessionState.authenticator
    → ((submit_2fa answer s).0 ≡ raises e) × ((submit_2fa answer s).1 ≡ s)
submit_fails e answer s same rejected awaited =
    let pending =
      subst (λ st. Outcome st s (err e) (submit_2fa (err e) s)) awaited
        (submit_2fa-Outcome (err e) s) in
    let (result, kept) = rw (not_upstream e rejected) at pending in rw same (result, kept)

module _ (p : Pytr) (B : Type 0) (server : Starlette) (phrase : ℕ → Option String) where
  open p use {World, Api}

  -- From a reachable session with no login under way and no saved web session, a login whose start
  -- Trade Republic answers with HTTP 429 ends with the problem 429 `rate_limited`, and leaves the
  -- session in `failed`.
  pub rate_limited_login :
      (c : Client Api) (w w' : World) {a : Api} (f : Foreign) {name : String} {tfa_timeout : ℕ}
      (s : Session)
      → Has p c a
      → p.initiate_weblogin a w ≡ (err f, w')
      → f.is_request ≡ true
      → has_status 429 f ≡ true
      → Reach name tfa_timeout s
      → IsQuiet s
      → let (result, t) = start_login (ok false) (Pytr.start_login p c w).0 s in
        IsAnswered B server phrase result (429, "rate_limited") × (t.state ≡ SessionState.failed)
  rate_limited_login c w w' f s h x r limited reach quiet =
      let (e, raised, limits, upstream) = start_login_status p c w f w' h x r in
      let (result, state) = login_fails e _ s raised upstream reach quiet in
      (answers_limited B server phrase _ e result (limits ∙ limited), state)

  -- While a code is awaited, one for which pytr raises a `ValueError` ends with the problem 401
  -- `code_rejected`, and the session stays exactly as it was, so another can be sent.
  pub rejected_code :
      (c : Client Api) (w w' : World) {a : Api} (code : String) (f : Foreign) (s : Session)
      → Has p c a
      → Fails p a code w w' f
      → f.is_value_error ≡ true
      → s.state ≡ SessionState.authenticator
      → let (result, t) = submit_2fa (complete_login p (some code) c w).0 s in
        IsAnswered B server phrase result (401, "code_rejected") × (t ≡ s)
  rejected_code c w w' code f s h x v awaited =
      let (e, raised, rejects) = complete_login_rejects p c w code f w' h x v in
      let (result, same) = submit_fails e _ s raised rejects awaited in
      (answers_rejected B server phrase _ e result rejects, same)
