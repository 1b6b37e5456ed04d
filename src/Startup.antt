-- ===== src/Startup.antt =====
-- tr_bridge/main.py: what the service does before it takes requests.
pub mod Ready
pub mod Tests
use trade_republic_bridge.Base.{String, Option, none, some, Result, ok, ◌>>=◌}
use trade_republic_bridge.Text.{strip}
use trade_republic_bridge.Config.{Env, Config, load}
use trade_republic_bridge.Config.Entry.{Fault}
use trade_republic_bridge.Registry.{Registry, Answers, build, resume_all}

-- `_read_version`, with the text of the version file, or `none` for an `OSError`
pub read_version : Option String → String
read_version none = "unknown"
read_version (some text) = strip text

-- What the application keeps in `application.state`.
pub record State (Api : Type 0) : Type 0 where
  pub config : Config
  pub registry : Registry Api

-- `_lifespan`, until its `yield`
pub lifespan : {Api : Type 0} → Env → Answers Api → Result Fault (State Api)
lifespan env answers = do
  config ← load env
  registry ← build config
  ok (record { config = config; registry = (resume_all answers registry).1 })
