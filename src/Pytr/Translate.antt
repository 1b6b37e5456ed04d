-- ===== src/Pytr/Translate.antt =====
-- What each `except` of tr_bridge/adapters/pytr/pytr_client.py makes of an exception that is none of
-- the service's own.
use trade_republic_bridge.Base.{ℕ, String, Bool, false, none, some, [], ◌∷◌, if◌then◌else◌, ◌==◌}
use trade_republic_bridge.Text.{is_empty}
use trade_republic_bridge.Domain.{
  Message, lit, shown, quoted, number, code_rejected, rate_limited, tr_upstream, session_expired,
  Foreign, Exc, domain, foreign,
}

-- `str(exc) or type(exc).__name__`
abbrev detail_of : Foreign → String
detail_of f = if is_empty f.text then f.type_name else f.text

-- `_upstream_message`
pub upstream_message : String → Foreign → Message
upstream_message name f = elim f.status_code [
  | some status ↦
      lit "Trade Republic upstream error for instance "
      ∷ quoted name
      ∷ lit " (HTTP "
      ∷ number status
      ∷ lit "): "
      ∷ shown (detail_of f)
      ∷ []
  | none ↦
      lit "Trade Republic upstream error for instance "
      ∷ quoted name
      ∷ lit ": "
      ∷ shown (detail_of f)
      ∷ []
]

-- `status_code == status`
abbrev pub has_status : ℕ → Foreign → Bool
has_status status f = elim f.status_code [ none ↦ false | some code ↦ code == status ]

-- `_raise_upstream`
unfoldable pub upstream : String → Foreign → Exc
upstream name f =
    if has_status 429 f
    then domain (
        rate_limited
          (lit "Trade Republic rate-limited login for instance " ∷ quoted name ∷ lit "." ∷ []))
    else domain (tr_upstream (upstream_message name f))

abbrev expired : String → Exc
expired name = domain (
    session_expired (
      lit "Trade Republic session for instance "
      ∷ quoted name
      ∷ lit " has expired; login required."
      ∷ []))

-- `resume_session` and `start_login`
unfoldable pub translate_login : String → Foreign → Exc
translate_login name f = if f.is_request then upstream name f else foreign f

-- `complete_login`: `except ValueError` stands first.
unfoldable pub translate_code : String → Foreign → Exc
translate_code name f =
    if f.is_value_error
    then domain (code_rejected (shown f.text ∷ []))
    else if f.is_request
    then upstream name f
    else foreign f

-- `_refresh_web_session`
unfoldable pub translate_refresh : String → Foreign → Exc
translate_refresh name f =
    if f.is_request
    then if has_status 401 f
      then expired name
      else if has_status 429 f
      then domain (
          rate_limited (
            lit "Trade Republic rate-limited the session refresh for instance "
            ∷ quoted name
            ∷ lit "."
            ∷ []))
      else upstream name f
    else foreign f

-- `fetch_timeline`: `except Exception`
unfoldable pub translate_timeline : String → Foreign → Exc
translate_timeline name f =
    if f.is_exception
    then if has_status 401 f
      then expired name
      else domain (
          tr_upstream (
            lit "Trade Republic timeline fetch failed for instance "
            ∷ quoted name
            ∷ lit ": "
            ∷ shown (detail_of f)
            ∷ []))
    else foreign f
