-- ===== src/Session/Driven.antt =====
-- Whole calls of `InstanceSession` (tr_bridge/application/session.py) with the port that they call
-- (tr_bridge/application/ports.py): which of its methods are called, in which order, and when none is.
pub mod Laws
use trade_republic_bridge.Base.{
  ℕ, String, Bool, false, none, some, List, [], Result, ok, if◌then◌else◌,
}
use trade_republic_bridge.Domain.{SessionState, LoginChallenge, Exc}
use trade_republic_bridge.Window.{DateTime}
use trade_republic_bridge.Port.{TradeRepublicClient}
use trade_republic_bridge.Session.{
  Session, Progress, awaits, is_free, enter_login, login_resumed, login_challenged, enter_submit,
  submit_answered, is_confirmed, fetch_timeline, push_answered,
}
use trade_republic_bridge.Session.Calls.{one_less}

module _ (port : TradeRepublicClient) where
  open port use {State}

  -- The end of a call, with the port as it stands then.
  abbrev ended : {A : Type 0} → State → Progress A × Session → Progress A × Session × State
  ended c (result, s) = (result, s, c)

  abbrev challenged :
      Session → Result Exc LoginChallenge × State → Progress SessionState × Session × State
  challenged s (r, c) = ended c (login_challenged r s)

  abbrev resumed : Session → Result Exc Bool × State → Progress SessionState × Session × State
  resumed s (ok false, c) = challenged (login_resumed (ok false) s).1 (port.start_login c)
  resumed s (r, c) = ended c (login_resumed r s)

  abbrev entered : State → Progress SessionState × Session → Progress SessionState × Session × State
  entered c (awaits, s) = resumed s (port.resume_session c)
  entered c (result, s) = (result, s, c)

  -- `start_login`
  pub login : Session → State → Progress SessionState × Session × State
  login s c = if is_free s then entered c (enter_login s) else ended c (enter_login s)

  abbrev completed : Session → Result Exc (Unit {0}) × State → Progress (Unit {0}) × Session × State
  completed s (r, c) = ended c (submit_answered r (record s { submits = one_less s.submits }))

  abbrev submitted :
      String → State → Progress (Unit {0}) × Session → Progress (Unit {0}) × Session × State
  submitted code c (awaits, s) = completed s (port.complete_login (some code) c)
  submitted code c (result, s) = (result, s, c)

  -- `submit_2fa`
  pub submit : String → Session → State → Progress (Unit {0}) × Session × State
  submit code s c = submitted code c (enter_submit s)

  -- `fetch_timeline`
  pub timeline : DateTime → DateTime → Session → State → Result Exc (List port.Event) × State
  timeline since until s c =
      if is_confirmed s.state
      then port.fetch_timeline since until c
      else (fetch_timeline s (ok []), c)

  abbrev answered : ℕ → Session → Result Exc (Unit {0}) × State → Session × State
  answered i s (r, c) = (push_answered i r s, c)

  -- `_run_push_confirmation` in task `i`, from its start to its end, with no other code in between
  pub confirm_push : ℕ → Session → State → Session × State
  confirm_push i s c = answered i s (port.complete_login none c)
