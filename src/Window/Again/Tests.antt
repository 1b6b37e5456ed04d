-- ===== src/Window/Again/Tests.antt =====
-- Times that are written as one `0` for each microsecond, and the theorem applied to them.
use text.Mathlib.TextLemmas.{cons-append}
use trade_republic_bridge.Base.{
  ℕ, zero, suc, ◌<◌, String, ◌≡◌, refl, ap, false, some, none, ok, arith, pos, code, ◌==◌,
  if◌then◌else◌,
}
use trade_republic_bridge.Text.{has_char, ◌<>◌}
use trade_republic_bridge.Window.{
  DateTime, Iso, as_aware, le_datetime, parse_iso, parse_until, check_order, parse_window,
  to_utc_iso, end_of_time,
}
use trade_republic_bridge.Window.Utc.{PrintsUtc, to_utc_iso_prints}
use trade_republic_bridge.Window.Again.{in_utc, ReadsPrinted, IsSameInstant, window_again}

abbrev zeros : ℕ → String
zeros zero = ""
zeros (suc n) = String.◌∷◌ "0" (zeros n)

abbrev count_zeros : String → ℕ
count_zeros String.[] = 0
count_zeros (String.◌∷◌ c s) = if code c == b'0' then suc (count_zeros s) else count_zeros s

abbrev written : ℕ → String
written n = String.◌∷◌ "T" (zeros n)

abbrev iso : Iso
iso = record {
  fromisoformat = λ s. if has_char b'T' s then some (in_utc (count_zeros s)) else none;
  isoformat = λ d. written d.local <> "+00:00";
}

no_plus : (n : ℕ) → has_char b'+' (zeros n) ≡ false
no_plus zero = refl
no_plus (suc n) = no_plus n

count_zeros-zeros : (n : ℕ) → count_zeros (zeros n <> "Z") ≡ n
count_zeros-zeros zero = refl
count_zeros-zeros (suc n) = rw (cons-append "0" (zeros n) "Z") (ap suc (count_zeros-zeros n))

abbrev iso-PrintsUtc : PrintsUtc iso
iso-PrintsUtc = record { body = written; no_plus = no_plus; printed = λ n. refl }

abbrev iso-ReadsPrinted : ReadsPrinted iso
iso-ReadsPrinted = record {
  prints = iso-PrintsUtc;
  timed = λ n. rw (cons-append "T" (zeros n) "Z") refl;
  read = λ n small. rw (cons-append "T" (zeros n) "Z", count_zeros-zeros n) refl;
}

window_read : parse_window iso 0 (some "T") (some "T00") ≡ ok (in_utc 0, in_utc 2)
unfolding parse_window parse_iso parse_until check_order as_aware le_datetime
window_read = refl

shown : (utc : ℕ) → utc < end_of_time → to_utc_iso iso (in_utc utc) ≡ ok (written utc <> "Z")
shown utc small = to_utc_iso_prints iso iso-PrintsUtc (in_utc utc) (pos 0) utc refl refl small

window_again_example :
    (a : DateTime) × (b : DateTime) × (parse_window iso 5
        (some (written 0 <> "Z"))
        (some (written 2 <> "Z"))
      ≡ ok (a, b))
    × IsSameInstant (in_utc 0) a
    × IsSameInstant (in_utc 2) b
    × (to_utc_iso iso a ≡ ok (written 0 <> "Z"))
    × (to_utc_iso iso b ≡ ok (written 2 <> "Z"))
window_again_example =
    window_again iso iso-ReadsPrinted 0 5 "T" (some "T00") (in_utc 0) (in_utc 2) (written 0 <> "Z")
      (written 2 <> "Z") window_read (shown 0 (ground arith)) (shown 2 (ground arith))
