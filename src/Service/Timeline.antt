-- ===== src/Service/Timeline.antt =====
-- A timeline request whose refresh of the session Trade Republic refuses: the route
-- (tr_bridge/adapters/web/routes.py), the session, the adapter
-- (tr_bridge/adapters/pytr/pytr_client.py) and the exception handlers.
use trade_republic_bridge.Base.{
  ℕ, String, ◌≡◌, ap, Bool, true, not, Option, some, List, Result, ok, err, arith, if◌then◌else◌,
}
use trade_republic_bridge.Domain.{
  SessionState, Exc, Foreign, domain, rate_limited, tr_upstream, session_expired, is_upstream,
}
use trade_republic_bridge.Problem.{ProblemDetail, problem_response}
use trade_republic_bridge.Window.{DateTime, Iso, parse_window}
use trade_republic_bridge.Pytr.{Pytr, Client, fetch_timeline}
use trade_republic_bridge.Pytr.Translate.{has_status}
use trade_republic_bridge.Pytr.Handle.{Has}
use trade_republic_bridge.Pytr.Errors.{is_rate_limited}
use trade_republic_bridge.Pytr.Timeline.{is_expired, refresh_status}
use trade_republic_bridge.Registry.{Instance, Registry, lookup}
use trade_republic_bridge.Web.Handlers.{of_exc, Starlette, handle}
use trade_republic_bridge.Web.Handlers.Answers.{handle_lem}
use trade_republic_bridge.Web.Routes.{get_instance_timeline}
use trade_republic_bridge.Web.Routes.Outcomes.{timeline_raises}

-- The status and the code for a refresh that failed.
abbrev pub refused_as : Bool → Bool → ℕ × String
refused_as unauthorized limited =
    if unauthorized
    then (401, "session_expired")
    else if limited
    then (429, "rate_limited")
    else (502, "tr_upstream_error")

-- The problem that an exception of the adapter ends as. `A` is a rendered body.
abbrev pub IsProblem : Type 0 → Starlette → (ℕ → Option String) → Exc → ℕ × String → Type 0
IsProblem A server phrase e status_and_code =
    (d : ProblemDetail) × (handle {A = A} server phrase (of_exc e) ≡ some (problem_response d))
    × ((d.status, d.code) ≡ status_and_code)

module _ (A : Type 0) (server : Starlette) (phrase : ℕ → Option String) where
  answered :
      (e : Exc) (unauthorized limited : Bool)
      → is_expired e ≡ unauthorized
      → is_rate_limited e ≡ limited
      → is_upstream e ≡ not unauthorized
      → IsProblem A server phrase e (refused_as unauthorized limited)
  answered (domain (session_expired m)) u l x y z =
      let (d, handled, status, _) =
        handle_lem server A phrase (of_exc (domain (session_expired m))) in
      (d, handled, rw (← x) status)
  answered (domain (rate_limited m)) u l x y z =
      let (d, handled, status, _) = handle_lem server A phrase (of_exc (domain (rate_limited m))) in
      (d, handled, rw (← x, ← y) status)
  answered (domain (tr_upstream m)) u l x y z =
      let (d, handled, status, _) = handle_lem server A phrase (of_exc (domain (tr_upstream m))) in
      (d, handled, rw (← x, ← y) status)
  answered _ u l x y z = absurd (ground arith)

  -- For a valid window and a confirmed session of a known instance, a failure of `requests` in the
  -- refresh of the web session ends the request as a problem: HTTP 401 as 401 `session_expired`, 429
  -- as 429 `rate_limited` and any other as 502 `tr_upstream_error`.
  pub refused_timeline :
      (p : Pytr) (c : Client p.Api) (w w' : p.World) {a : p.Api} (f : Foreign) {Events Api : Type 0}
      (iso : Iso) (now : ℕ) (validate : List p.Event → Result Exc Events) (name : String)
      (since until : Option String) (reg : Registry Api) {s u : DateTime} {inst : Instance Api}
      → parse_window iso now since until ≡ ok (s, u)
      → lookup name reg ≡ some inst
      → inst.session.state ≡ SessionState.confirmed
      → Has p c a
      → p.settings a w ≡ (err f, w')
      → f.is_request ≡ true
      → let port = λ (x : DateTime) (y : DateTime). (fetch_timeline p x y c w).0 in
        (e : Exc) × (get_instance_timeline iso now port validate name since until reg ≡ err e)
        × IsProblem A server phrase e (refused_as (has_status 401 f) (has_status 429 f))
  refused_timeline p c w w' f iso now validate name since until reg {s} {u} window known confirmed h
        x r =
      let (e, raised, expired, limited, upstream) = refresh_status p c w s u f w' h x r in
      (
        e,
        timeline_raises iso now (λ x y. (fetch_timeline p x y c w).0) validate name since until reg
            window known confirmed (ap (λ t. t.0) raised),
        answered e (has_status 401 f) (has_status 429 f) expired limited upstream,
      )
