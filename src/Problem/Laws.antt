-- ===== src/Problem/Laws.antt =====
-- Every domain error has a complete problem mapping (tr_bridge/errors.py, domain/state.py).
use trade_republic_bridge.Base.{ℕ, String, ◌≡◌, refl, ◌≢◌, none, some, ◌∷◌, ok, arith}
use trade_republic_bridge.Text.{replace_char, ◌<>◌}
use trade_republic_bridge.Domain.{
  DomainError, login_in_progress, code_rejected, rate_limited, tr_upstream, session_expired,
  invalid_request, invalid_state, no_login_pending, instance_not_found,
}
use trade_republic_bridge.Problem.{
  ProblemDetail, ClassAttrs, Mro, get_attr, init_subclass, mro, detail, to_problem_detail,
  base_type_url,
}

-- A class that `__init_subclass__` accepts has a status, a code and a title.
init_subclass_sound :
    (class_name : String) (classes : Mro)
    → init_subclass class_name classes ≡ ok tt
    → (get_attr (λ c. c.status) classes ≢ none)
      × (get_attr (λ c. c.code) classes ≢ none)
      × (get_attr (λ c. c.title) classes ≢ none)
unfolding init_subclass
init_subclass_sound class_name classes e = ground arith

-- `__init_subclass__` accepts any subclass of a class that it accepts, whatever the subclass declares.
init_subclass_inherited :
    (class_name sub_name : String) (own : ClassAttrs) (classes : Mro)
    → init_subclass class_name classes ≡ ok tt
    → init_subclass sub_name (own ∷ classes) ≡ ok tt
unfolding init_subclass
init_subclass_inherited class_name sub_name own classes e = ground arith

-- The status and code of each error. They stand in the tables of README.md, but for `invalid_state`.
abbrev pub documented : DomainError → ℕ × String
documented (invalid_request _) = (400, "invalid_request")
documented (session_expired _) = (401, "session_expired")
documented (code_rejected _) = (401, "code_rejected")
documented (instance_not_found _) = (404, "instance_not_found")
documented (no_login_pending _) = (409, "no_login_pending")
documented (invalid_state _) = (409, "invalid_state")
documented (login_in_progress _) = (409, "login_in_progress")
documented (rate_limited _) = (429, "rate_limited")
documented (tr_upstream _) = (502, "tr_upstream_error")

-- A domain error becomes a problem with the status and code of that table, its own detail, and a type
-- that is the base URL followed by the code with dashes for underscores.
pub to_problem_detail_lem :
    (e : DomainError)
    → (d : ProblemDetail) × (to_problem_detail e ≡ some d)
      × ((d.status, d.code) ≡ documented e)
      × (d.detail ≡ detail e)
      × (d.type ≡ base_type_url <> "/" <> replace_char b'_' "-" d.code)
unfolding to_problem_detail
to_problem_detail_lem (login_in_progress m) = (_, refl, refl, refl, refl)
to_problem_detail_lem (code_rejected m) = (_, refl, refl, refl, refl)
to_problem_detail_lem (rate_limited m) = (_, refl, refl, refl, refl)
to_problem_detail_lem (tr_upstream m) = (_, refl, refl, refl, refl)
to_problem_detail_lem (session_expired m) = (_, refl, refl, refl, refl)
to_problem_detail_lem (invalid_request m) = (_, refl, refl, refl, refl)
to_problem_detail_lem (invalid_state s) = (_, refl, refl, refl, refl)
to_problem_detail_lem (no_login_pending s) = (_, refl, refl, refl, refl)
to_problem_detail_lem (instance_not_found name) = (_, refl, refl, refl, refl)

-- The class of every domain error passes the check that runs when it is declared.
mro_accepted : (class_name : String) (e : DomainError) → init_subclass class_name (mro e) ≡ ok tt
unfolding init_subclass mro
mro_accepted class_name (login_in_progress m) = refl
mro_accepted class_name _ = refl
