-- ===== src/Pytr/Errors.antt =====
-- What the login methods of the adapter raise (tr_bridge/adapters/pytr/pytr_client.py).
use trade_republic_bridge.Base.{
  String, ◌≡◌, ◌⊎◌, ◌↔◌, Bool, true, false, not, ◌&&◌, ◌||◌, Option, none, some, ok, err, arith,
  inl, inr,
}
use trade_republic_bridge.Domain.{
  Exc, Foreign, foreign, domain, is_upstream, rate_limited, code_rejected,
}
use trade_republic_bridge.Pytr.{Pytr, Client, resume_session, start_login, complete_login}
use trade_republic_bridge.Pytr.Translate.{translate_login, translate_code, upstream, has_status}
use trade_republic_bridge.Pytr.Handle.{Has}

abbrev pub is_rate_limited : Exc → Bool
is_rate_limited (domain (rate_limited _)) = true
is_rate_limited _ = false

abbrev pub is_code_rejected : Exc → Bool
is_code_rejected (domain (code_rejected _)) = true
is_code_rejected _ = false

-- An error that the session takes for an upstream failure, or an exception that `requests` did not
-- raise, unchanged.
abbrev from_login : Exc → Bool
from_login (domain e) = is_upstream (domain e)
from_login (foreign f) = not f.is_request

-- The same, or a rejected code; no `ValueError` is left.
abbrev from_code : Exc → Bool
from_code (domain e) = is_upstream (domain e) || is_code_rejected (domain e)
from_code (foreign f) = not f.is_request && not f.is_value_error

module _ (p : Pytr) where
  open p use {World, Api}

  -- With a handle, `resume_session` and `start_login` raise nothing but `RateLimitedError`,
  -- `TrUpstreamError`, and exceptions that are no `RequestException`.
  pub login_errors :
      (c : Client Api) (w : World) {a : Api} {e : Exc}
      → Has p c a
      → ((resume_session p c w).0 ≡ err e) ⊎ ((start_login p c w).0 ≡ err e)
      → from_login e ≡ true
  unfolding resume_session start_login translate_login upstream
  login_errors c w h (inl x) = ground arith
  login_errors c w h (inr x) = ground arith

  -- With a handle, `complete_login` raises nothing but `CodeRejectedError`, `RateLimitedError`,
  -- `TrUpstreamError`, and exceptions that are neither a `ValueError` nor a `RequestException`.
  pub complete_login_errors :
      (c : Client Api) (w : World) (code : Option String) {a : Api} {e : Exc}
      → Has p c a
      → (complete_login p code c w).0 ≡ err e
      → from_code e ≡ true
  unfolding complete_login translate_code upstream
  complete_login_errors c w none h x = ground arith
  complete_login_errors c w (some code) h x = ground arith

  -- With a handle, an HTTP 429 that `requests` raises while a login is started becomes a
  -- `RateLimitedError`, and any other failure of `requests` a `TrUpstreamError`.
  pub start_login_status :
      (c : Client Api) (w : World) {a : Api} (f : Foreign) (w' : World)
      → Has p c a
      → p.initiate_weblogin a w ≡ (err f, w')
      → f.is_request ≡ true
      → (e : Exc) × ((start_login p c w).0 ≡ err e)
        × (is_rate_limited e ≡ has_status 429 f)
        × (is_upstream e ≡ true)
  unfolding start_login translate_login upstream
  start_login_status c w f w' h x r =
      (upstream c.config.name f, ground arith, ground arith, ground arith)

  -- What pytr did when a login by code succeeded.
  pub record Confirmed (a : Api) (code : String) (before after : World) : Type 0 where
    pub checked : World
    pub polled : World
    pub accepted : p.complete_weblogin a (some code) before ≡ (ok tt, checked)
    pub hooked : p.has_hook a checked ≡ true
    pub confirmed : p.await_confirmation a checked ≡ (ok tt, polled)
    pub saved : p.save_websession a polled ≡ (ok tt, after)

  Confirmed-to :
      (c : Client Api) (w after : World) (code : String) {a : Api}
      → Has p c a
      → complete_login p (some code) c w ≡ (ok tt, c, after)
      → Confirmed a code w after
  unfolding complete_login
  Confirmed-to c w after code {a} h x =
      let checked : World = (p.complete_weblogin a (some code) w).1 in
      let polled : World = (p.await_confirmation a checked).1 in
      record {
        checked = checked;
        polled = polled;
        accepted = ground arith;
        hooked = ground arith;
        confirmed = ground arith;
        saved = ground arith;
      }

  Confirmed-from :
      (c : Client Api) (w after : World) (code : String) {a : Api}
      → Has p c a
      → Confirmed a code w after
      → complete_login p (some code) c w ≡ (ok tt, c, after)
  unfolding complete_login
  Confirmed-from c w after code h r = ground (arith, r.accepted, r.hooked, r.confirmed, r.saved)

  -- With a handle, `complete_login` with a code returns exactly when pytr has accepted the code,
  -- polled the login to its confirmation and saved the session, in this order.
  pub complete_login_iff :
      (c : Client Api) (w after : World) (code : String) {a : Api}
      → Has p c a
      → (complete_login p (some code) c w ≡ (ok tt, c, after)) ↔ Confirmed a code w after
  complete_login_iff c w after code h =
      (Confirmed-to c w after code h, Confirmed-from c w after code h)

  -- What pytr raised when a login by code failed: the code itself, the confirmation of the login or the
  -- saving of its session.
  pub data Fails (a : Api) (code : String) (before after : World) (f : Foreign) : Type 0 where
    fails_code :
        p.complete_weblogin a (some code) before ≡ (err f, after) → Fails a code before after f
    fails_confirmation :
        (checked : World)
        → p.complete_weblogin a (some code) before ≡ (ok tt, checked)
        → p.has_hook a checked ≡ true
        → p.await_confirmation a checked ≡ (err f, after)
        → Fails a code before after f
    fails_saving :
        (checked polled : World)
        → p.complete_weblogin a (some code) before ≡ (ok tt, checked)
        → p.has_hook a checked ≡ true
        → p.await_confirmation a checked ≡ (ok tt, polled)
        → p.save_websession a polled ≡ (err f, after)
        → Fails a code before after f

  -- With a handle, any `ValueError` that pytr raises while it completes a login by code becomes a
  -- `CodeRejectedError`, also one that comes from `requests`, as its `JSONDecodeError` does, whatever
  -- its status.
  pub complete_login_rejects :
      (c : Client Api) (w : World) (code : String) {a : Api} (f : Foreign) (w' : World)
      → Has p c a
      → Fails a code w w' f
      → f.is_value_error ≡ true
      → (e : Exc) × ((complete_login p (some code) c w).0 ≡ err e) × (is_code_rejected e ≡ true)
  unfolding complete_login translate_code
  complete_login_rejects c w code f w' h (fails_code x) v =
      (translate_code c.config.name f, ground arith, ground arith)
  complete_login_rejects c w code f w' h (fails_confirmation u x k y) v =
      (translate_code c.config.name f, ground arith, ground arith)
  complete_login_rejects c w code f w' h (fails_saving u t x k y z) v =
      (translate_code c.config.name f, ground arith, ground arith)
