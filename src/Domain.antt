-- ===== src/Domain.antt =====
-- tr_bridge/domain/state.py: the session's states, the login challenges and the domain errors, with
-- the two domain errors that are declared elsewhere (instance_registry.py, timewindow.py), and the
-- other exceptions that cross the port.
--
-- A message is kept as the pieces of its f-string: `{x}` and `{x!r}` are not rendered here.
use trade_republic_bridge.Base.{ℕ, String, Bool, true, false, Option, List}

pub data SessionState : Type 0 where
  idle authenticator push confirmed failed : SessionState

pub data LoginChallenge : Type 0 where
  authenticator push : LoginChallenge

-- The string behind each member of the `StrEnum`.
abbrev pub state_value : SessionState → String
state_value SessionState.idle = "idle"
state_value SessionState.authenticator = "authenticator"
state_value SessionState.push = "push"
state_value SessionState.confirmed = "confirmed"
state_value SessionState.failed = "failed"

pub data Piece : Type 0 where
  lit : String → Piece
  shown : String → Piece
  quoted : String → Piece
  number : ℕ → Piece

abbrev pub Message : Type 0
Message = List Piece

-- One constructor for each class, with the arguments that an instance keeps.
pub data DomainError : Type 0 where
  login_in_progress code_rejected rate_limited tr_upstream session_expired invalid_request :
      Message → DomainError
  invalid_state no_login_pending : SessionState → DomainError
  instance_not_found : String → DomainError

-- An exception of the standard library, of `requests` or of pytr, by what the code asks of it:
-- the handlers that it fits, `str(exc)`, `type(exc).__name__` and `exc.response.status_code`.
-- `is_exception` is false for `asyncio.CancelledError`.
pub record Foreign : Type 0 where
  pub type_name : String
  pub text : String
  pub is_exception : Bool
  pub is_value_error : Bool
  pub is_request : Bool
  pub status_code : Option ℕ

pub data Exc : Type 0 where
  domain : DomainError → Exc
  foreign : Foreign → Exc

-- `_PENDING_STATES` of application/session.py
abbrev pub is_pending : SessionState → Bool
is_pending SessionState.authenticator = true
is_pending SessionState.push = true
is_pending _ = false

-- `except Exception` takes it.
abbrev pub is_caught : Exc → Bool
is_caught (domain _) = true
is_caught (foreign f) = f.is_exception

-- `_UPSTREAM_ERRORS` of application/session.py
abbrev pub is_upstream : Exc → Bool
is_upstream (domain (rate_limited _)) = true
is_upstream (domain (tr_upstream _)) = true
is_upstream _ = false
