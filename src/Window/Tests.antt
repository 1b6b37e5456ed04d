-- ===== src/Window/Tests.antt =====
-- Concrete windows, and the theorems of this directory applied to them.
use text.Mathlib.Text.{◌==◌ as str_eq}
use trade_republic_bridge.Base.{◌≡◌, refl, ◌↔◌, true, none, some, ok, err, pos, if◌then◌else◌}
use trade_republic_bridge.Domain.{Exc}
use trade_republic_bridge.Text.{replace}
use trade_republic_bridge.Window.{
  to_utc, DateTime, Iso, parse_window, parse_iso, parse_until, check_order, as_aware, le_datetime,
  to_utc_iso,
}
use trade_republic_bridge.Window.Parse.{
  IsWindow, is_invalid_request, parse_window_iff, parse_window_error,
}
use trade_republic_bridge.Window.Utc.{PrintsUtc}

abbrev pub noon : DateTime
noon = record { local = 43200000000; offset = none }

-- 12:30 at one hour ahead of UTC
abbrev pub ahead : DateTime
ahead = record { local = 45000000000; offset = some (pos 3600000000) }

-- Two timestamps can be read, and one time is printed.
abbrev pub iso : Iso
iso = record {
  fromisoformat = λ s.
      if str_eq s "0001-01-01T12:00"
      then some noon
      else if str_eq s "0001-01-01T12:30+01:00"
      then some ahead
      else none;
  isoformat = λ d. "0001-01-01T11:30:00+00:00";
}

abbrev iso-PrintsUtc : PrintsUtc iso
iso-PrintsUtc = record {
  body = λ local. "0001-01-01T11:30:00";
  no_plus = λ local. refl;
  printed = λ local. refl;
}

parse_window_iff_example :
    (parse_window iso 0 (some "0001-01-01T12:30+01:00") (some "0001-01-01T12:00")
      ≡ ok (ahead, as_aware noon))
    ↔ IsWindow iso 0 (some "0001-01-01T12:30+01:00") (some "0001-01-01T12:00") ahead (as_aware noon)
parse_window_iff_example =
    parse_window_iff iso 0 (some "0001-01-01T12:30+01:00") (some "0001-01-01T12:00") ahead
      (as_aware noon)

-- That window is accepted.
abbrev pub read_window :
    parse_window iso 0 (some "0001-01-01T12:30+01:00") (some "0001-01-01T12:00")
    ≡ ok (ahead, as_aware noon)
unfolding parse_window parse_iso parse_until check_order as_aware le_datetime
read_window = refl

-- Both of its ends are 11:30 in UTC, as this `iso` prints every time.
pub printed_window :
    (to_utc_iso iso ahead ≡ ok "0001-01-01T11:30:00Z")
    × (to_utc_iso iso (as_aware noon) ≡ ok "0001-01-01T11:30:00Z")
unfolding to_utc_iso as_aware to_utc replace
printed_window = (refl, refl)

-- The two ends swapped.
swapped :
    (e : Exc) × (parse_window iso 0 (some "0001-01-01T12:00") (some "0001-01-01T12:30+01:00")
      ≡ err e)
unfolding parse_window parse_iso parse_until check_order as_aware le_datetime
swapped = (_, refl)

parse_window_error_example : is_invalid_request swapped.0 ≡ true
parse_window_error_example =
    parse_window_error iso 0 (some "0001-01-01T12:00") (some "0001-01-01T12:30+01:00") swapped.1

-- Half an hour after the first moment that can be written, at one hour ahead of UTC.
abbrev pub edge : DateTime
edge = record { local = 1800000000; offset = some (pos 3600000000) }

-- This time can be read too.
abbrev pub wide : Iso
wide = record iso {
  fromisoformat = λ s. if str_eq s "0001-01-01T00:30+01:00" then some edge else iso.fromisoformat s;
}

abbrev pub read_edge :
    parse_window wide 0 (some "0001-01-01T00:30+01:00") (some "0001-01-01T12:00")
    ≡ ok (edge, as_aware noon)
unfolding parse_window parse_iso parse_until check_order as_aware le_datetime
read_edge = refl
