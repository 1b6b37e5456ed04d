-- ===== src/Problem.antt =====
-- tr_bridge/errors.py: the RFC 9457 problem model, with the class attributes that the domain errors
-- of domain/state.py, timewindow.py and instance_registry.py declare.
pub mod Laws
use trade_republic_bridge.Base.{
  ℕ, String, Bool, true, false, not, Option, none, some, List, [], ◌∷◌, ◌++◌, Result, ok, err,
  if◌then◌else◌,
}
use trade_republic_bridge.Text.{is_empty, replace_char, join, ◌<>◌}
use trade_republic_bridge.Domain.{
  state_value, lit, shown, quoted, Message, DomainError, login_in_progress, code_rejected,
  rate_limited, tr_upstream, session_expired, invalid_request, invalid_state, no_login_pending,
  instance_not_found,
}

-- `_BASE_TYPE_URL`
abbrev pub base_type_url : String
base_type_url = "https://tr-bridge/errors"

pub record ProblemDetail : Type 0 where
  pub status : ℕ
  pub code : String
  pub title : String
  pub detail : Message
  pub type : String

-- `_derive_type`, which pydantic runs on each new object
unfoldable derive_type : ProblemDetail → ProblemDetail
derive_type d =
    if is_empty d.type
    then record d { type = base_type_url <> "/" <> replace_char b'_' "-" d.code }
    else d

-- `ProblemDetail(status=…, code=…, title=…, detail=…)`
unfoldable pub problem_detail : ℕ → String → String → Message → ProblemDetail
unfolding derive_type
problem_detail status code title detail =
    derive_type (record { status = status; code = code; title = title; detail = detail; type = "" })

-- The attributes that a class declares itself.
pub record ClassAttrs : Type 0 where
  pub class_name : String
  pub status : Option ℕ
  pub code : Option String
  pub title : Option String

-- A class with its bases, in method resolution order, the class first.
abbrev pub Mro : Type 0
Mro = List ClassAttrs

-- Attribute lookup on a class: the first class of its order that declares it.
abbrev pub get_attr : {A : Type 0} → (ClassAttrs → Option A) → Mro → Option A
get_attr own [] = none
get_attr own (c ∷ bases) = elim (own c) [ some a ↦ some a | none ↦ get_attr own bases ]

abbrev has_attr : {A : Type 0} → (ClassAttrs → Option A) → Mro → Bool
has_attr own mro = elim (get_attr own mro) [ some _ ↦ true | none ↦ false ]

abbrev absent : String → Bool → List String
absent attr present = if present then [] else attr ∷ []

-- The list `missing` of `__init_subclass__`
abbrev missing : Mro → List String
missing mro =
    absent "status" (has_attr (λ c. c.status) mro)
    ++ (absent "code" (has_attr (λ c. c.code) mro) ++ absent "title" (has_attr (λ c. c.title) mro))

-- `__init_subclass__`: a class whose attributes are incomplete raises a `TypeError`.
pub init_subclass : String → Mro → Result Message (Unit {0})
init_subclass class_name mro = elim (missing mro) [
  | [] ↦ ok tt
  | attr ∷ attrs ↦ err (
      shown class_name
      ∷ lit " must define "
      ∷ shown (join ", " (attr ∷ attrs))
      ∷ lit " as class attribute(s)."
      ∷ [])
]

-- `class DomainError` declares none of its annotated attributes.
abbrev domain_error : ClassAttrs
domain_error = record { class_name = "DomainError"; status = none; code = none; title = none }

abbrev declared : String → ℕ → String → String → ClassAttrs
declared class_name status code title = record {
  class_name = class_name;
  status = some status;
  code = some code;
  title = some title;
}

abbrev invalid_state_error : ClassAttrs
invalid_state_error =
    declared "InvalidStateError" 409 "invalid_state" "Operation not valid in current state"

-- The class of an error with its bases.
unfoldable pub mro : DomainError → Mro
mro (login_in_progress _) =
    declared "LoginInProgressError" 409 "login_in_progress" "Login already in progress"
    ∷ domain_error
    ∷ []
mro (code_rejected _) =
    declared "CodeRejectedError" 401 "code_rejected" "2FA code rejected" ∷ domain_error ∷ []
mro (rate_limited _) =
    declared "RateLimitedError" 429 "rate_limited" "Rate limited" ∷ domain_error ∷ []
mro (tr_upstream _) =
    declared "TrUpstreamError" 502 "tr_upstream_error" "Trade Republic upstream error"
    ∷ domain_error
    ∷ []
mro (session_expired _) =
    declared "SessionExpiredError" 401 "session_expired" "Session expired" ∷ domain_error ∷ []
mro (invalid_request _) =
    declared "InvalidRequestError" 400 "invalid_request" "Invalid request" ∷ domain_error ∷ []
mro (invalid_state _) = invalid_state_error ∷ domain_error ∷ []
mro (no_login_pending _) =
    record {
      class_name = "NoLoginPendingError";
      status = none;
      code = some "no_login_pending";
      title = some "No login pending";
    }
    ∷ invalid_state_error
    ∷ domain_error
    ∷ []
mro (instance_not_found _) =
    declared "InstanceNotFoundError" 404 "instance_not_found" "Instance not found"
    ∷ domain_error
    ∷ []

-- `str(exc)`: the message that the constructor passes to `Exception`.
message : DomainError → Message
message (login_in_progress m) = m
message (code_rejected m) = m
message (rate_limited m) = m
message (tr_upstream m) = m
message (session_expired m) = m
message (invalid_request m) = m
message (invalid_state s) = lit "Operation not valid in state " ∷ quoted (state_value s) ∷ []
message (no_login_pending s) = lit "Operation not valid in state " ∷ quoted (state_value s) ∷ []
message (instance_not_found name) = lit "Instance not found: " ∷ quoted name ∷ []

-- The property `detail`, with its two overrides.
pub detail : DomainError → Message
unfolding message
detail (no_login_pending s) = lit "No login is awaiting a 2FA code; start a login first." ∷ []
detail (instance_not_found name) =
    lit "No instance named " ∷ quoted name ∷ lit " is configured." ∷ []
detail e = message e

infixl 5 ◌>>=◌
abbrev ◌>>=◌ : {A B : Type 0} → Option A → (A → Option B) → Option B
none >>= k = none
some a >>= k = k a

-- `to_problem_detail`; `none` stands for the `AttributeError` of an attribute that no class declares.
unfoldable pub to_problem_detail : DomainError → Option ProblemDetail
unfolding mro detail problem_detail
to_problem_detail e = do
  status ← get_attr (λ c. c.status) (mro e)
  code ← get_attr (λ c. c.code) (mro e)
  title ← get_attr (λ c. c.title) (mro e)
  some (problem_detail status code title (detail e))

-- A response whose body is a value of `A` or a problem; pydantic and Starlette turn it into bytes.
pub data Content (A : Type 0) : Type 0 where
  payload : A → Content A
  problem : ProblemDetail → Content A

pub record Response (A : Type 0) : Type 0 where
  pub status_code : ℕ
  pub media_type : String
  pub content : Content A

unfoldable pub problem_response : {A : Type 0} → ProblemDetail → Response A
problem_response d = record {
  status_code = d.status;
  media_type = "application/problem+json";
  content = problem d;
}
