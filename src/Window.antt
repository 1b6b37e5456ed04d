-- ===== src/Window.antt =====
-- tr_bridge/timewindow.py: the `[since, until)` window of a timeline request.
--
-- A `datetime` is its wall clock in microseconds since 0001-01-01T00:00 and its offset from UTC, if
-- it has one. `Iso` is the part of the `datetime` module that reads and prints ISO-8601.
pub mod Timed
pub mod Parse
pub mod Utc
pub mod Again
pub mod Tests
use trade_republic_bridge.Base.{
  ℕ, ◌+◌, ◌-◌, ◌*◌, String, Bool, true, false, not, ◌&&◌, ◌||◌, Option, none, some, [], ◌∷◌, Result,
  ok, err, ◌>>=◌, ◌>>◌, if◌then◌else◌, leb, ltb, ℤ, pos, pos_part, neg_part,
}
use trade_republic_bridge.Text.{has_char, strip, replace}
use trade_republic_bridge.Domain.{
  Message, lit, shown, quoted, invalid_request, Foreign, Exc, domain, foreign,
}

pub record DateTime : Type 0 where
  pub local : ℕ
  pub offset : Option ℤ

-- 9999-12-31 is day 3652059; there is no later `datetime`.
abbrev pub end_of_time : ℕ
end_of_time = 3652059 * 86400000000

pub record Iso : Type 0 where
  -- `datetime.fromisoformat`; `none` is its `ValueError`.
  pub fromisoformat : String → Option DateTime
  pub isoformat : DateTime → String

-- `dt.replace(tzinfo=UTC)` where `dt.tzinfo is None`
pub as_aware : DateTime → DateTime
as_aware d = elim d.offset [ none ↦ record d { offset = some (pos 0) } | some _ ↦ d ]

-- Not after, for two aware values: their instants are compared, each its wall clock less its offset.
abbrev le_instant : ℕ → ℤ → ℕ → ℤ → Bool
le_instant a p b q = leb (a + neg_part p + pos_part q) (b + neg_part q + pos_part p)

abbrev mixed : Foreign
mixed = record {
  type_name = "TypeError";
  text = "can't compare offset-naive and offset-aware datetimes";
  is_exception = true;
  is_value_error = false;
  is_request = false;
  status_code = none;
}

-- `a <= b` for `datetime`s
pub le_datetime : DateTime → DateTime → Result Exc Bool
le_datetime a b = elim a.offset [
  | none ↦ elim b.offset [ none ↦ ok (leb a.local b.local) | some q ↦ err (foreign mixed) ]
  | some p ↦ elim b.offset [
    | none ↦ err (foreign mixed)
    | some q ↦ ok (le_instant a.local p b.local q)
  ]
]

abbrev invalid : Message → Exc
invalid m = domain (invalid_request m)

-- The test for a separator between date and time.
abbrev pub has_time : String → Bool
has_time value = has_char b'T' value || has_char b't' value || has_char b' ' (strip value)

abbrev pub overflow : Foreign
overflow = record {
  type_name = "OverflowError";
  text = "date value out of range";
  is_exception = true;
  is_value_error = false;
  is_request = false;
  status_code = none;
}

-- `dt.astimezone(UTC)` of an aware value
pub to_utc : ℕ → ℤ → Result Exc DateTime
to_utc local p =
    if leb (pos_part p) (local + neg_part p) && ltb (local + neg_part p - pos_part p) end_of_time
    then ok (record { local = local + neg_part p - pos_part p; offset = some (pos 0) })
    else err (foreign overflow)

module _ (iso : Iso) where
  open iso use {fromisoformat, isoformat}

  -- `_parse_iso`
  pub parse_iso : String → String → Result Exc DateTime
  unfolding as_aware
  parse_iso value field = elim (fromisoformat value) [
    | none ↦ err (
        invalid (
          lit "Query parameter "
          ∷ quoted field
          ∷ lit " is not a valid ISO-8601 timestamp: "
          ∷ quoted value
          ∷ []))
    | some parsed ↦
        if not (has_time value)
        then err (
            invalid (
              lit "Query parameter "
              ∷ quoted field
              ∷ lit " must be a full ISO-8601 timestamp with a time component, not a date only: "
              ∷ quoted value
              ∷ []))
        else ok (as_aware parsed)
  ]

  -- `until`, which is the current time if it is left out; `now` is the clock's UTC time.
  pub parse_until : ℕ → Option String → Result Exc DateTime
  parse_until now none = ok (record { local = now; offset = some (pos 0) })
  parse_until now (some value) = parse_iso value "until"

  -- The test that ends `parse_window`.
  pub check_order : DateTime → DateTime → Result Exc (DateTime × DateTime)
  unfolding le_datetime
  check_order since until = do
    backwards ← le_datetime until since
    if backwards
        then err (
            invalid (
              lit "Query parameter 'until' ("
              ∷ shown (isoformat until)
              ∷ lit ") must be later than 'since' ("
              ∷ shown (isoformat since)
              ∷ lit ")."
              ∷ []))
        else ok (since, until)

  -- `parse_window`
  unfoldable pub parse_window : ℕ → Option String → Option String → Result Exc (DateTime × DateTime)
  parse_window now none until = err (invalid (lit "Query parameter 'since' is required." ∷ []))
  parse_window now (some since) until = do
    since_dt ← parse_iso since "since"
    until_dt ← parse_until now until
    check_order since_dt until_dt

  -- `to_utc_iso`
  unfoldable pub to_utc_iso : DateTime → Result Exc String
  unfolding to_utc
  to_utc_iso d = do
    utc ← elim d.offset [ none ↦ to_utc d.local (pos 0) | some p ↦ to_utc d.local p ]
    ok (replace "+00:00" "Z" (isoformat utc))
