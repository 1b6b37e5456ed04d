-- ===== src/Service/Ready.antt =====
-- The instances when the service starts to take requests (tr_bridge/main.py: `_lifespan`;
-- tr_bridge/instance_registry.py: `resume_all`), with the adapter as the port.
use trade_republic_bridge.Base.{
  ℕ, String, ◌≡◌, refl, Bool, true, false, some, Result, ok, err, arith,
}
use trade_republic_bridge.Config.{Env}
use trade_republic_bridge.Session.{init}
use trade_republic_bridge.Domain.{Exc, SessionState, is_pending}
use trade_republic_bridge.Session.Calls.{IsQuiet}
use trade_republic_bridge.Pytr.{Pytr}
use trade_republic_bridge.Pytr
use trade_republic_bridge.Pytr.Handle.{Has, CanMake, resume-Has}
use trade_republic_bridge.Registry.{Instance, Answers, lookup}
use trade_republic_bridge.Registry.Built.{lookup-expected}
use trade_republic_bridge.Registry.Resumed.{attempted, resumed_state}
use trade_republic_bridge.Startup.{State, lifespan}
use trade_republic_bridge.Startup.Ready.{lifespan-attempted}

-- The attempts of the adapter, each in the world that it finds.
abbrev pub adapter_answers : (p : Pytr) → (String → p.World) → Answers p.Api
adapter_answers p worlds name c =
    let (resumed, client, left) = Pytr.resume_session p c (worlds name) in (resumed, client)

settled_after : (r : Result Exc Bool) → is_pending (resumed_state r SessionState.idle) ≡ false
settled_after (ok true) = refl
settled_after (ok false) = refl
settled_after (err e) = refl

pub attempted-IsQuiet :
    {Api : Type 0} (answers : Answers Api) (name : String) (tfa_timeout : ℕ) (inst : Instance Api)
    → inst.session ≡ init name tfa_timeout
    → IsQuiet (attempted answers name inst).session
unfolding init
attempted-IsQuiet answers name tfa_timeout inst e = record {
  settled = ground (arith, settled_after (answers name inst.client).0);
  unlocked = ground arith;
  unqueued = ground arith;
}

-- If directories and handles can be made, then each instance of a service that has started has no
-- login under way, and a client with a handle, whether the attempt to resume its session found one,
-- found none or raised.
pub started_ready :
    (p : Pytr) (worlds : String → p.World) (env : Env) (state : State p.Api) (name : String)
    (inst : Instance p.Api)
    → CanMake p
    → lifespan env (adapter_answers p worlds) ≡ ok state
    → lookup name state.registry ≡ some inst
    → IsQuiet inst.session × ((a : p.Api) × Has p inst.client a)
started_ready p worlds env state name inst makes e found =
    let (before, there, after) =
      lifespan-attempted env (adapter_answers p worlds) state name e found in
    let fresh = lookup-expected state.config name state.config.instances there in
    rw (← after) (
      attempted-IsQuiet (adapter_answers p worlds) name state.config.tfa_timeout before fresh,
      resume-Has p before.client (worlds name) makes,
    )
