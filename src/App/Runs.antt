-- ===== src/App/Runs.antt =====
-- A started service under any requests (tr_bridge/main.py; tr_bridge/adapters/web/routes.py).
use trade_republic_bridge.Base.{◌≡◌, ok, inl, inr}
use trade_republic_bridge.Config.{Env}
use trade_republic_bridge.Registry.{Registry, Answers}
use trade_republic_bridge.Startup.{State, lifespan}
use trade_republic_bridge.Service.Runs.{Step, starts, Serves-Reach, Step-Reach}
use trade_republic_bridge.Service.Requests.Effects.{Sound}
use trade_republic_bridge.App.{Platform, Request, Shared, handled}
use trade_republic_bridge.App.Effects.{effect}

module _ (host : Platform) where
  open host use {Body, pytr}
  open pytr use {World, Api}

  -- What a service that was started comes to. A request is handled as a whole, or a session moves by
  -- one of its own steps: a timer fires, a task that polls is answered, or a part of a call that
  -- overlaps with others runs. The world may change at any time.
  pub data Runs (env : Env) (answers : Answers Api) : Shared host → Type 0 where
    started :
        (state : State Api) (w : World)
        → lifespan env answers ≡ ok state
        → Runs env answers (state, w)
    requested :
        (shared : Shared host) (request : Request Body)
        → Runs env answers shared
        → Runs env answers (handled host request shared).1
    moved :
        (state : State Api) (reg : Registry Api) (w v : World)
        → Runs env answers (state, w)
        → Step state.registry reg
        → Runs env answers (record state { registry = reg }, v)

  -- Whatever is asked of a service that was started, in whatever order, and whatever its tasks do in
  -- between, every session in its registry is reachable for its name and the configured timeout.
  pub Runs-Reach :
      (env : Env) (answers : Answers Api) (shared : Shared host)
      → Runs env answers shared
      → Sound shared.0.config.tfa_timeout shared.0.registry
  Runs-Reach env answers _ (started state w e) = λ name inst found.
      Serves-Reach env answers state.config state.registry name inst (starts state.registry e) found
  Runs-Reach env answers _ (requested shared request r) =
      let before = Runs-Reach env answers shared r in
      elim (effect host request shared) [
        | inl e ↦ rw e before
        | inr (name, suffix, at, leaves) ↦ rw leaves.configured (leaves.touched.sound before)
      ]
  Runs-Reach env answers _ (moved state reg w v r st) =
      Step-Reach st (Runs-Reach env answers (state, w) r)
