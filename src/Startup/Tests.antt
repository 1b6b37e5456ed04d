-- ===== src/Startup/Tests.antt =====
-- A start of the service with two instances, and the theorems of this directory applied to it.
use mathlib.Core.Option
use trade_republic_bridge.Base.{ℕ, ◌≡◌, [], ok, err}
use trade_republic_bridge.Domain.{domain, tr_upstream}
use trade_republic_bridge.Config.{load}
use trade_republic_bridge.Config.Valid.{IsConfig}
use trade_republic_bridge.Config.Tests.{env, config, loaded}
use trade_republic_bridge.Registry.{Answers, lookup}
use trade_republic_bridge.Registry.Built.{expected}
use trade_republic_bridge.Registry.Resumed.{attempted}
use trade_republic_bridge.Startup.{State, lifespan}
use trade_republic_bridge.Startup.Ready.{lifespan_lem}

-- No attempt succeeds.
abbrev pub answers : Answers ℕ
answers name client = (err (domain (tr_upstream [])), client)

pub load_config : load env ≡ ok config
unfolding load
load_config = loaded

lifespan_lem_example :
    IsConfig config
    × ((s : State ℕ) × (lifespan env answers ≡ ok s)
        × (s.config ≡ config)
        × (lookup "main" s.registry
            ≡ Option.map
                (attempted answers "main")
                (lookup "main" (expected config config.instances))))
lifespan_lem_example = lifespan_lem env answers config "main" load_config
