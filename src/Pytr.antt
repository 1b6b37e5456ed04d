-- ===== src/Pytr.antt =====
-- tr_bridge/adapters/pytr/pytr_client.py: `PytrClient`, the adapter behind the port of
-- tr_bridge/application/ports.py.
--
-- pytr and the file system are a `Pytr`: its operations act on a `World` that only they can see. A
-- method is an action on the client and that world; what it did to both stays done when it raises.
pub mod Translate
pub mod Handle
pub mod Errors
pub mod Timeline
pub mod Adapter
pub mod Tests
use trade_republic_bridge.Base.{
  String, Bool, true, false, Option, none, some, List, [], ◌∷◌, Result, ok, err, if◌then◌else◌,
}
use trade_republic_bridge.Text.{◌<>◌}
use trade_republic_bridge.Domain.{
  LoginChallenge, lit, quoted, tr_upstream, Foreign, Exc, domain, foreign,
}
use trade_republic_bridge.Config.Entry.{InstanceConfig}
use trade_republic_bridge.Window.{DateTime}
use trade_republic_bridge.Pytr.Translate.{
  translate_login, translate_code, translate_refresh, translate_timeline,
}

pub record Pytr : Type 1 where
  pub World : Type 0
  pub Api : Type 0
  pub Loop : Type 0
  pub Event : Type 0
  -- `Path(dir).mkdir(parents=True, exist_ok=True)`
  pub make_dir : String → World → Result Foreign (Unit {0}) × World
  -- `TradeRepublicApi`, with the phone, the pin, the credentials file and the cookies file
  pub make_api : String → String → String → String → World → Result Foreign Api × World
  pub resume_websession : Api → World → Result Foreign Bool × World
  pub initiate_weblogin : Api → World → Result Foreign (Unit {0}) × World
  pub needs_authenticator : Api → World → Bool
  pub complete_weblogin : Api → Option String → World → Result Foreign (Unit {0}) × World
  -- Whether the private hook is there and callable, and its call.
  pub has_hook : Api → World → Bool
  pub await_confirmation : Api → World → Result Foreign (Unit {0}) × World
  pub save_websession : Api → World → Result Foreign (Unit {0}) × World
  pub settings : Api → World → Result Foreign (Unit {0}) × World
  -- `Timeline`, with the directory and the two times whose `timestamp()` it is given
  pub make_timeline : Api → String → DateTime → DateTime → World → Result Foreign Loop × World
  pub tl_loop : Loop → World → Result Foreign (Unit {0}) × World
  pub events : Loop → World → List Event

pub record Client (Api : Type 0) : Type 0 where
  pub config : InstanceConfig
  pub session_dir : String
  pub api : Option Api

module _ (p : Pytr) where
  open p use {World, Api, Loop, Event}

  abbrev pub Action : Type 0 → Type 0
  Action A = Client Api → World → Result Exc A × Client Api × World

  infixl 5 ◌>>=◌ ◌>>◌
  abbrev ◌>>=◌ : {A B : Type 0} → Action A → (A → Action B) → Action B
  ◌>>=◌ m f c w = let (r, c', w') = m c w in elim r [ ok a ↦ f a c' w' | err e ↦ (err e, c', w') ]

  abbrev ◌>>◌ : {A B : Type 0} → Action A → Action B → Action B
  m >> k = m >>= λ _. k

  abbrev pure : {A : Type 0} → A → Action A
  pure a c w = (ok a, c, w)

  abbrev raise : {A : Type 0} → Exc → Action A
  raise e c w = (err e, c, w)

  -- A call into pytr: `_run`, and the calls that are made directly.
  abbrev run : {A : Type 0} → (World → Result Foreign A × World) → Action A
  run call c w =
      let (r, w') = call w in elim r [ ok a ↦ (ok a, c, w') | err f ↦ (err (foreign f), c, w') ]

  -- `try … except`, with one of the handlers above
  abbrev catching : {A : Type 0} → (String → Foreign → Exc) → Action A → Action A
  catching translate m c w =
      let (r, c', w') = m c w in
      elim r [
        | ok a ↦ (ok a, c', w')
        | err (foreign f) ↦ (err (translate c'.config.name f), c', w')
        | err (domain e) ↦ (err (domain e), c', w')
      ]

  abbrev gets : {A : Type 0} → (World → A) → Action A
  gets f c w = (ok (f w), c, w)

  -- `_build_api`
  pub build_api : Action Api
  build_api c w =
      (do
        run (p.make_dir c.session_dir)
        run (
            p.make_api c.config.phone c.config.pin (c.session_dir <> "/credentials.json")
              (c.session_dir <> "/cookies.txt")))
        c w

  keep : Api → Action Api
  keep a c w = (ok a, record c { api = some a }, w)

  -- `_ensure_api`
  pub ensure_api : Action Api
  unfolding build_api keep
  ensure_api c w = elim c.api [ some a ↦ (ok a, c, w) | none ↦ (build_api >>= keep) c w ]

  -- `resume_session`
  pub resume_session : Action Bool
  unfolding ensure_api
  resume_session = do api ← ensure_api; catching translate_login (run (p.resume_websession api))

  abbrev challenge_of : Bool → LoginChallenge
  challenge_of true = LoginChallenge.authenticator
  challenge_of false = LoginChallenge.push

  -- `start_login`
  pub start_login : Action LoginChallenge
  unfolding ensure_api
  start_login = do
    api ← ensure_api
    catching translate_login (run (p.initiate_weblogin api))
    needed ← gets (p.needs_authenticator api)
    pure (challenge_of needed)

  abbrev incompatible : String → Exc
  incompatible name = domain (
      tr_upstream (
        lit "Incompatible pytr version for instance "
        ∷ quoted name
        ∷ lit ": expected TradeRepublicApi._await_weblogin_confirmation() (pytr 0.4.10)."
        ∷ []))

  -- `_confirm_weblogin`
  pub confirm_weblogin : Api → Action (Unit {0})
  confirm_weblogin api c w =
      if p.has_hook api w
      then run (p.await_confirmation api) c w
      else raise (incompatible c.config.name) c w

  -- The body of the `try` in `complete_login`.
  pub complete : Api → Option String → Action (Unit {0})
  unfolding confirm_weblogin
  complete api none = run (p.complete_weblogin api none)
  complete api (some code) = do
    run (p.complete_weblogin api (some code))
    confirm_weblogin api
    run (p.save_websession api)

  -- `complete_login`
  pub complete_login : Option String → Action (Unit {0})
  unfolding ensure_api complete
  complete_login code = do api ← ensure_api; catching translate_code (complete api code)

  -- `_refresh_web_session`
  pub refresh_web_session : Api → Action (Unit {0})
  refresh_web_session api = catching translate_refresh (run (p.settings api))

  -- `fetch_timeline`
  pub fetch_timeline : DateTime → DateTime → Action (List Event)
  unfolding ensure_api refresh_web_session
  fetch_timeline since until c w =
      (do
        api ← ensure_api
        refresh_web_session api
        timeline ← run (p.make_timeline api c.session_dir since until)
        catching translate_timeline (run (p.tl_loop timeline))
        gets (p.events timeline))
        c w
