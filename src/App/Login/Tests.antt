-- ===== src/App/Login/Tests.antt =====
-- A login by three requests, and the theorem of App/Login.antt applied to it.
use trade_republic_bridge.Base.{ℕ, String, arith, ◌≡◌, ◌≢◌, refl, false, none, some, ok}
use trade_republic_bridge.Config.Tests.{env, config, main}
use trade_republic_bridge.Startup.{State}
use trade_republic_bridge.Startup.Ready.{lifespan_started}
use trade_republic_bridge.Startup.Tests.{load_config}
use trade_republic_bridge.Session.Calls.{IsQuiet}
use trade_republic_bridge.Pytr.{Pytr}
use trade_republic_bridge.Pytr.Adapter.{IsLocal}
use trade_republic_bridge.Pytr.Errors.{Confirmed}
use trade_republic_bridge.Pytr.Tests.{working, working-IsLocal}
use trade_republic_bridge.Registry.{Instance, Answers, lookup, resume_all, make_instance}
use trade_republic_bridge.Registry.Built.{expected, lookup-expected}
use trade_republic_bridge.Registry.Resumed.{attempted, resume_all-lookup}
use trade_republic_bridge.Service.Ready.{attempted-IsQuiet}
use trade_republic_bridge.Web.Routes.{login_state, status}
use trade_republic_bridge.Web.Table.{Endpoint, routes}
use trade_republic_bridge.App.{app, Request, reply, respond}
use trade_republic_bridge.App.Runs.{started}
use trade_republic_bridge.App.Login.{Addresses, login_replies}
use trade_republic_bridge.App.Tests.{host, host_of}

-- No saved session, and a handle for each client.
abbrev pub resumptions : Answers ℕ
resumptions name client = (ok false, record client { api = some 7 })

abbrev pub ready : State ℕ
ready = record {
  config = config;
  registry = (resume_all resumptions (expected config config.instances)).1;
}

abbrev pub configured : Instance ℕ
configured = make_instance config main "/data/tr_session_main"

abbrev pub main_instance : Instance ℕ
main_instance = attempted resumptions "main" configured

pub ready_main : lookup "main" ready.registry ≡ some main_instance
ready_main = resume_all-lookup resumptions (expected config config.instances) "main"

pub main-IsQuiet : IsQuiet main_instance.session
main-IsQuiet =
    attempted-IsQuiet resumptions "main" config.tfa_timeout configured
      (lookup-expected config "main" config.instances refl)

abbrev pub asks : String → String → String → Request String
asks method path body = record {
  http = record { path = path; x_api_key = some "secret" };
  method = method;
  since = none;
  until = none;
  body = body;
  now = 0;
}

abbrev pub login_request : Request String
login_request = asks "POST" "/instances/main/login" ""

abbrev pub code_request : Request String
code_request = asks "POST" "/instances/main/login/2fa" "1234"

abbrev pub status_request : Request String
status_request = asks "GET" "/instances/main/status" ""

pub to_login :
    (p : Pytr) (local : IsLocal p)
    → Addresses (host_of p local) config Endpoint.post_instance_login "main" login_request
unfolding app routes
to_login p local = record {
  is_comparable = refl;
  is_allowed = ground arith;
  route = _;
  is_found = refl;
  is_for = refl;
}

pub to_code :
    (p : Pytr) (local : IsLocal p)
    → Addresses (host_of p local) config Endpoint.post_instance_login_2fa "main" code_request
unfolding app routes
to_code p local = record {
  is_comparable = refl;
  is_allowed = ground arith;
  route = _;
  is_found = refl;
  is_for = refl;
}

pub to_status :
    (p : Pytr) (local : IsLocal p)
    → Addresses (host_of p local) config Endpoint.get_instance_status "main" status_request
unfolding app routes
to_status p local = record {
  is_comparable = refl;
  is_allowed = ground arith;
  route = _;
  is_found = refl;
  is_for = refl;
}

accepted : Confirmed working 7 "1234" 2 5
accepted = record {
  checked = 3;
  polled = 4;
  accepted = refl;
  hooked = refl;
  confirmed = refl;
  saved = refl;
}

login_replies_example :
    let (first_reply, asked) = respond host login_request (ready, 0) in
    let (second_reply, done) = respond host code_request asked in
    let (third_reply, after) = respond host status_request done in
    (first_reply ≡ reply (host.render (login_state "authenticator")))
    × (second_reply ≡ reply (host.render (login_state "confirmed")))
    × (third_reply ≡ reply (host.render (status "main" "confirmed")))
    × ((other : String)
        → other ≢ "main"
        → lookup other after.0.registry ≡ lookup other ready.registry)
login_replies_example =
    login_replies host env resumptions ready 0 1 2 5 main_instance "main" "1234" login_request
      code_request status_request (started ready 0 (lifespan_started env resumptions load_config))
      ready_main main-IsQuiet refl refl refl refl accepted (to_login working working-IsLocal)
      (to_code working working-IsLocal) (to_status working working-IsLocal) refl
