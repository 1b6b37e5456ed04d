-- ===== src/Pytr/Handle.antt =====
-- The cached handle (tr_bridge/adapters/pytr/pytr_client.py: `_ensure_api`): pytr keeps the login in
-- it between two calls, so it must never be made anew.
use trade_republic_bridge.Base.{
  String, ◌≡◌, Bool, true, false, Option, none, some, ok, arith, Option-cases, inl, inr,
}
use trade_republic_bridge.Text.{◌<>◌}
use trade_republic_bridge.Domain.{LoginChallenge}
use trade_republic_bridge.Window.{DateTime}
use trade_republic_bridge.Pytr.{
  Pytr, Client, ensure_api, build_api, resume_session, start_login, complete_login, complete,
  fetch_timeline,
}

module _ (p : Pytr) where
  open p use {World, Api}

  -- A client that has a handle.
  abbrev pub Has : Client Api → Api → Type 0
  Has c a = c.api ≡ some a

  -- With a handle, `_ensure_api` gives that handle and does nothing else.
  pub ensure_api_cached :
      (c : Client Api) (w : World) {a : Api} → Has c a → ensure_api p c w ≡ (ok a, c, w)
  unfolding ensure_api
  ensure_api_cached c w h = ground arith

  -- With a handle, the answer of pytr is the answer.
  pub resume_answers :
      (c : Client Api) (w after : World) {a : Api} {resumed : Bool}
      → Has c a
      → p.resume_websession a w ≡ (ok resumed, after)
      → resume_session p c w ≡ (ok resumed, c, after)
  unfolding resume_session
  resume_answers c w after h x = ground arith

  pub login_asks :
      (c : Client Api) (w after : World) {a : Api}
      → Has c a
      → p.initiate_weblogin a w ≡ (ok tt, after)
      → p.needs_authenticator a after ≡ true
      → start_login p c w ≡ (ok LoginChallenge.authenticator, c, after)
  unfolding start_login
  login_asks c w after h x needed = ground arith

  pub login_pushes :
      (c : Client Api) (w after : World) {a : Api}
      → Has c a
      → p.initiate_weblogin a w ≡ (ok tt, after)
      → p.needs_authenticator a after ≡ false
      → start_login p c w ≡ (ok LoginChallenge.push, c, after)
  unfolding start_login
  login_pushes c w after h x needed = ground arith

  pub push_completes :
      (c : Client Api) (w after : World) {a : Api}
      → Has c a
      → p.complete_weblogin a none w ≡ (ok tt, after)
      → complete_login p none c w ≡ (ok tt, c, after)
  unfolding complete_login complete
  push_completes c w after h x = ground arith

  complete_login-Has :
      (c : Client Api) (w : World) (code : Option String) {a : Api}
      → Has c a
      → Has (complete_login p code c w).1 a
  unfolding complete_login
  complete_login-Has c w none h = ground arith
  complete_login-Has c w (some code) h = ground arith

  fetch_timeline-Has :
      (c : Client Api) (w : World) (since until : DateTime) {a : Api}
      → Has c a
      → Has (fetch_timeline p since until c w).1 a
  unfolding fetch_timeline
  fetch_timeline-Has c w since until h = ground arith

  -- Whatever the port is asked and whatever pytr answers, a client keeps the handle that it has.
  pub handle_kept :
      (c : Client Api) (w : World) (code : Option String) (since until : DateTime) {a : Api}
      → Has c a
      → Has (resume_session p c w).1 a
        × Has (start_login p c w).1 a
        × Has (complete_login p code c w).1 a
        × Has (fetch_timeline p since until c w).1 a
  unfolding resume_session start_login
  handle_kept c w code since until h = (
    ground arith,
    ground arith,
    complete_login-Has c w code h,
    fetch_timeline-Has c w since until h,
  )

  -- Directories and handles can be made.
  pub record CanMake : Type 0 where
    pub make_dir : (dir : String) (w : World) → (v : World) × (p.make_dir dir w ≡ (ok tt, v))
    pub make_api :
        (phone pin credentials cookies : String) (w : World)
        → (a : Api) × (v : World) × (p.make_api phone pin credentials cookies w ≡ (ok a, v))

  -- An attempt to resume leaves a client with a handle, whatever pytr answers to it.
  pub resume-Has :
      (c : Client Api) (w : World) → CanMake → (a : Api) × Has (resume_session p c w).1 a
  unfolding resume_session ensure_api build_api
  resume-Has c w makes = elim (Option-cases c.api) [
    | inr (a, e) ↦ (a, ground (arith, e))
    | inl e ↦
        let (v, dir) = makes.make_dir c.session_dir w in
        let (a, u, api) =
          makes.make_api c.config.phone c.config.pin (c.session_dir <> "/credentials.json")
            (c.session_dir <> "/cookies.txt") v in
        (a, ground (arith, e, dir, api))
  ]
