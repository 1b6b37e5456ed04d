-- ===== src/Port.antt =====
-- tr_bridge/application/ports.py: what the session asks of Trade Republic, as an interface that the
-- session takes and the pytr adapter fills.
use trade_republic_bridge.Base.{String, ◌≡◌, Bool, true, not, Option, List, Result, ok, err}
use trade_republic_bridge.Domain.{LoginChallenge, Exc, domain, foreign}
use trade_republic_bridge.Window.{DateTime}

-- What a call raised is no transport-level failure: no exception of `requests`.
abbrev pub is_translated : {A : Type 0} → Result Exc A → Bool
is_translated (ok a) = true
is_translated (err (domain e)) = true
is_translated (err (foreign f)) = not f.is_request

-- A `TradeRepublicClient` with the world that it acts on. The laws are what the docstring asks:
-- "implementations must translate transport-level failures into the domain errors".
pub record TradeRepublicClient : Type 1 where
  pub State : Type 0
  pub Event : Type 0
  pub resume_session : State → Result Exc Bool × State
  pub start_login : State → Result Exc LoginChallenge × State
  pub complete_login : Option String → State → Result Exc (Unit {0}) × State
  pub fetch_timeline : DateTime → DateTime → State → Result Exc (List Event) × State
  pub resume_translates : (c : State) → is_translated (resume_session c).0 ≡ true
  pub start_translates : (c : State) → is_translated (start_login c).0 ≡ true
  pub complete_translates :
      (code : Option String) (c : State) → is_translated (complete_login code c).0 ≡ true
  pub fetch_translates :
      (since until : DateTime) (c : State) → is_translated (fetch_timeline since until c).0 ≡ true
