-- ===== src/App/Refusals.antt =====
-- Answers of Trade Republic that refuse a login, on their way to the caller (tr_bridge/main.py; tr_bridge/adapters/web/routes.py;
-- tr_bridge/adapters/web/handlers.py).
use trade_republic_bridge.Base.{String, ◌≡◌, refl, ap, ◌∙◌, true, some, ok}
use trade_republic_bridge.Domain.{SessionState, state_value, Exc, Foreign}
use trade_republic_bridge.Session.{Session, Progress, raises}
use trade_republic_bridge.Session.Calls.{submit_2fa}
use trade_republic_bridge.Session.Driven.Laws.{submit_lem}
use trade_republic_bridge.Pytr.{complete_login}
use trade_republic_bridge.Pytr
use trade_republic_bridge.Pytr.Adapter.{pytr_port}
use trade_republic_bridge.Pytr.Errors.{Fails}
use trade_republic_bridge.Pytr.Handle.{Has}
use trade_republic_bridge.Startup.{State}
use trade_republic_bridge.Registry.{Instance, lookup}
use trade_republic_bridge.Registry.Lookup.{lookup-insert_self}
use trade_republic_bridge.Web.Handlers.{of_exc, throws}
use trade_republic_bridge.Web.Routes.{progress_map, login_state}
use trade_republic_bridge.Web.Table.{Endpoint}
use trade_republic_bridge.Service.{rejected_code}
use trade_republic_bridge.Service.Requests.{on_instance_known, request_2fa}
use trade_republic_bridge.App.{Platform, Request, call, respond}
use trade_republic_bridge.App.Runs.{Runs}
use trade_republic_bridge.App.Errors.{IsProblem, respond_raised}
use trade_republic_bridge.App.Login.{Addresses}

module _ (host : Platform) where
  open host use {pytr, local, Events, Body, Rendered}
  open pytr use {World, Api}

  -- The same for a code.
  code_known :
      (name code : String) (state : State Api) (inst : Instance Api) (w : World)
      → lookup name state.registry ≡ some inst
      → let (result, reg, v) = request_2fa pytr local Events name code state.registry w in
        let (called, t) =
          submit_2fa (complete_login pytr (some code) inst.client w).0 inst.session in
        (result ≡ progress_map (λ _. login_state (state_value t.state)) called)
        × ((after : Instance Api) × (lookup name reg ≡ some after) × (after.session ≡ t))
  unfolding request_2fa
  code_known name code state inst w known =
      let answered = (submit_lem (pytr_port pytr local) code inst.session (inst.client, w)).0 in
      rw (on_instance_known pytr local Events _ _ name state.registry w known) (
        ap
            (λ (q : Progress (Unit {0}) × Session).
              progress_map (λ _. login_state (state_value q.1.state)) q.0)
            answered,
        (
          _,
          lookup-insert_self name _ state.registry,
          ap (λ (q : Progress (Unit {0}) × Session). q.1) answered,
        ),
      )

  code_raises :
      (name code : String) (request : Request Body) (state : State Api) (w : World) (e : Exc)
      → host.read_code request.body ≡ ok code
      → (request_2fa pytr local Events name code state.registry w).0 ≡ raises e
      → let (result, reg, v) = request_2fa pytr local Events name code state.registry w in
        call host Endpoint.post_instance_login_2fa name request (state, w)
        ≡ (throws (of_exc e), (record state { registry = reg }, v))
  unfolding call
  code_raises name code request state w e read raised = rw (read, raised) refl

  -- While a known instance whose client has a handle awaits a code: if one is sent with the key, in a
  -- body that can be read, and pytr raises a `ValueError` for it, in the call that takes the code, in
  -- the one that confirms the login or in the one that saves its session, then the reply is the problem
  -- 401 `code_rejected`, and the session stays exactly as it was, so another code can be sent. This
  -- holds for a `ValueError` that comes from `requests` too, as its `JSONDecodeError` does.
  pub rejected_replied :
      (state : State Api) (w v : World) (inst : Instance Api) {a : Api} (name code : String)
      (f : Foreign) (request : Request Body)
      → lookup name state.registry ≡ some inst
      → inst.session.state ≡ SessionState.authenticator
      → Has pytr inst.client a
      → Fails pytr a code w v f
      → f.is_value_error ≡ true
      → Addresses host state.config Endpoint.post_instance_login_2fa name request
      → host.read_code request.body ≡ ok code
      → let (answer, left) = respond host request (state, w) in
        IsProblem host answer (401, "code_rejected")
        × ((after : Instance Api) × (lookup name left.0.registry ≡ some after)
            × (after.session ≡ inst.session))
  rejected_replied state w v inst name code f request known awaited h x bad addressed read =
      let ((e, d, raised, answered, status), kept) =
        rejected_code pytr Rendered host.handlers host.phrase inst.client w v code f inst.session h
          x bad awaited in
      let (result, (after, stored, same)) = code_known name code state inst w known in
      let whole =
        code_raises name code request state w e read (result ∙ ap (progress_map _) raised) in
      rw
        (respond_raised host Endpoint.post_instance_login_2fa name request (state, w) _ (of_exc e) d
          addressed whole answered)
        ((d, refl, status), (after, stored, same ∙ kept))
