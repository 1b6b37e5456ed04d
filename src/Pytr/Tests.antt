-- ===== src/Pytr/Tests.antt =====
-- A pytr that answers what it is told, and the theorems of this directory applied to it.
use trade_republic_bridge.Base.{
  ℕ, suc, String, ◌≡◌, ◌↔◌, refl, true, false, none, some, List, [], ◌∷◌, ok, err, Result, pos,
}
use trade_republic_bridge.Domain.{foreign, Foreign}
use trade_republic_bridge.Window.{DateTime}
use trade_republic_bridge.Config.Tests.{main}
use trade_republic_bridge.Pytr.{
  Pytr, Client, resume_session, start_login, complete_login, fetch_timeline, ensure_api,
  confirm_weblogin, complete, refresh_web_session,
}
use trade_republic_bridge.Pytr.Translate.{translate_login, translate_code, upstream}
use trade_republic_bridge.Port.{is_translated}
use trade_republic_bridge.Pytr.Adapter.{IsLocal, PassesCode, PassesTimeline, adapter_translates}
use trade_republic_bridge.Pytr.Timeline.{Fetched, fetch_timeline_iff}

-- Each call moves the world on by one; four of the answers are given.
abbrev answering :
    Result Foreign (Unit {0})
    → Result Foreign (Unit {0})
    → Result Foreign (Unit {0})
    → Result Foreign (Unit {0})
    → Pytr
answering login code settings loop = record {
  World = ℕ;
  Api = ℕ;
  Loop = String;
  Event = String;
  make_dir = λ dir w. (ok tt, suc w);
  make_api = λ phone pin credentials cookies w. (ok w, suc w);
  resume_websession = λ api w. (ok false, suc w);
  initiate_weblogin = λ api w. (login, suc w);
  needs_authenticator = λ api w. true;
  complete_weblogin = λ api given w. (code, suc w);
  has_hook = λ api w. true;
  await_confirmation = λ api w. (ok tt, suc w);
  save_websession = λ api w. (ok tt, suc w);
  settings = λ api w. (settings, suc w);
  make_timeline = λ api dir since until w. (ok dir, suc w);
  tl_loop = λ l w. (loop, suc w);
  events = λ l w. "event" ∷ l ∷ [];
}

abbrev pub working : Pytr
working = answering (ok tt) (ok tt) (ok tt) (ok tt)

abbrev pub client : Client ℕ
client = record { config = main; session_dir = "/data/tr_session_main"; api = some 7 }

abbrev pub http_error : ℕ → Foreign
http_error status = record {
  type_name = "HTTPError";
  text = "refused";
  is_exception = true;
  is_value_error = false;
  is_request = true;
  status_code = some status;
}

-- `requests.exceptions.JSONDecodeError`, which is a `ValueError` as well
abbrev pub no_json : Foreign
no_json = record {
  type_name = "JSONDecodeError";
  text = "Expecting value";
  is_exception = true;
  is_value_error = true;
  is_request = true;
  status_code = none;
}

abbrev pub wrong_code : Foreign
wrong_code = record {
  type_name = "ValueError";
  text = "wrong code";
  is_exception = true;
  is_value_error = true;
  is_request = false;
  status_code = none;
}

abbrev pub noon : DateTime
noon = record { local = 43200000000; offset = some (pos 0) }

abbrev pub later : DateTime
later = record { local = 50000000000; offset = some (pos 0) }

abbrev pub limited : Pytr
limited = answering (err (http_error 429)) (err wrong_code) (err (http_error 401)) (ok tt)

start_login_raises : (start_login limited client 0).0 ≡ err (upstream "main" (http_error 429))
unfolding start_login ensure_api translate_login
start_login_raises = refl

complete_login_raises :
    (complete_login limited (some "1234") client 0).0 ≡ err (translate_code "main" wrong_code)
unfolding complete_login ensure_api complete
complete_login_raises = refl

abbrev pub garbled : Pytr
garbled = answering (ok tt) (err no_json) (ok tt) (ok tt)

abbrev fetched : List String
fetched = "event" ∷ "/data/tr_session_main" ∷ []

fetch_timeline_iff_example :
    (fetch_timeline working noon later client 0 ≡ (ok fetched, client, 3))
    ↔ Fetched working client 7 noon later 0 3 fetched
fetch_timeline_iff_example = fetch_timeline_iff working client 0 3 noon later fetched refl

-- The two runs.
timeline_runs : fetch_timeline working noon later client 0 ≡ (ok fetched, client, 3)
unfolding fetch_timeline ensure_api refresh_web_session
timeline_runs = refl

login_runs : complete_login working (some "1234") client 0 ≡ (ok tt, client, 3)
unfolding complete_login ensure_api complete confirm_weblogin
login_runs = refl

answering-IsLocal :
    (login code settings : Result Foreign (Unit {0}))
    → IsLocal (answering login code settings (ok tt))
answering-IsLocal login code settings = record {
  make_dir = λ dir w. refl;
  make_api = λ phone pin credentials cookies w. refl;
  make_timeline = λ a dir since until w. refl;
  regular = λ l w. refl;
}

pub working-IsLocal : IsLocal working
working-IsLocal = answering-IsLocal (ok tt) (ok tt) (ok tt)

pub limited-IsLocal : IsLocal limited
limited-IsLocal = answering-IsLocal (err (http_error 429)) (err wrong_code) (err (http_error 401))

pub garbled-IsLocal : IsLocal garbled
garbled-IsLocal = answering-IsLocal (ok tt) (err no_json) (ok tt)

adapter_translates_example :
    (is_translated (resume_session limited client 0).0 ≡ true)
    × (is_translated (start_login limited client 0).0 ≡ true)
    × (is_translated (complete_login limited (some "1234") client 0).0 ≡ true)
    × (is_translated (fetch_timeline limited noon later client 0).0 ≡ true)
    × ((f : Foreign)
        → (complete_login limited (some "1234") client 0).0 ≡ err (foreign f)
        → PassesCode limited client 0 f)
    × ((f : Foreign)
        → (fetch_timeline limited noon later client 0).0 ≡ err (foreign f)
        → PassesTimeline limited noon later client 0 f)
adapter_translates_example =
    adapter_translates limited limited-IsLocal (some "1234") noon later client 0
