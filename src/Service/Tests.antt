-- ===== src/Service/Tests.antt =====
-- Answers of Trade Republic to concrete requests, and the theorems of Service.antt applied to them.
use trade_republic_bridge.Service.Ready.{adapter_answers, started_ready}
use trade_republic_bridge.Pytr.Handle.{Has, CanMake}
use trade_republic_bridge.Service.Login.{push_login}
use trade_republic_bridge.Base.{none, ℕ, ◌≡◌, refl, false, some}
use trade_republic_bridge.Config.Tests.{env, config, main}
use trade_republic_bridge.Registry.{Answers, Instance, resume_all, make_instance}
use trade_republic_bridge.Registry.Built.{expected}
use trade_republic_bridge.Registry.Resumed.{attempted, resume_all-lookup}
use trade_republic_bridge.Startup.Ready.{lifespan_started}
use trade_republic_bridge.Startup.Tests.{load_config}
use trade_republic_bridge.Session.{running, returns}
use trade_republic_bridge.Session.Driven.{confirm_push, login}
use trade_republic_bridge.Pytr.Adapter.{IsLocal, pytr_port}
use trade_republic_bridge.Domain.{SessionState}
use trade_republic_bridge.Session.Tests.{fresh, fresh-Reach, fresh-IsQuiet}
use trade_republic_bridge.Session.Calls.{IsQuiet}
use trade_republic_bridge.Pytr.{Pytr}
use trade_republic_bridge.Pytr.Tests.{working, client}

-- A pytr whose logins are approved in the app.
abbrev approving : Pytr
approving = record working { needs_authenticator = λ api w. false }

abbrev approving-IsLocal : IsLocal approving
approving-IsLocal = record {
  make_dir = λ dir w. refl;
  make_api = λ phone pin credentials cookies w. refl;
  make_timeline = λ a dir since until w. refl;
  regular = λ l w. refl;
}

push_login_example :
    let port = pytr_port approving approving-IsLocal in
    let (first, awaiting, left) = login port fresh (client, 0) in
    let (done, left) = confirm_push port fresh.next_task awaiting left in
    (first ≡ returns SessionState.push)
    × (awaiting.push_task ≡ some fresh.next_task)
    × (awaiting.pushes fresh.next_task ≡ some running)
    × (done.state ≡ SessionState.confirmed)
    × (done.timeout_task ≡ none)
    × (done.push_task ≡ none)
    × (left ≡ (client, 3))
push_login_example =
    push_login approving approving-IsLocal client 0 1 2 3 fresh fresh-Reach fresh-IsQuiet refl refl
      refl refl refl

-- Both instances try to resume, and neither has a saved session.
abbrev resumptions : Answers ℕ
resumptions = adapter_answers working (λ name. 0)

abbrev resumed_main : Instance ℕ
resumed_main = attempted resumptions "main" (make_instance config main "/data/tr_session_main")

can_make : CanMake working
can_make = record {
  make_dir = λ dir w. (_, refl);
  make_api = λ phone pin credentials cookies w. (_, _, refl);
}

started_ready_example : IsQuiet resumed_main.session × ((a : ℕ) × Has working resumed_main.client a)
started_ready_example =
    started_ready working (λ name. 0) env
      (record {
        config = config;
        registry = (resume_all resumptions (expected config config.instances)).1;
      })
      "main" resumed_main can_make (lifespan_started env resumptions load_config)
      (resume_all-lookup resumptions (expected config config.instances) "main")
