-- ===== src/Window/Utc.antt =====
-- Printing a time in UTC (tr_bridge/timewindow.py: `to_utc_iso`).
use trade_republic_bridge.Base.{
  ℕ, ◌+◌, ◌<◌, ◌≤◌, String, ◌≡◌, refl, ◌⊎◌, false, some, ok, err, arith, ℤ, pos, pos_part, neg_part,
  ap, ◌∙◌, Result-cases, inl, inr,
}
use trade_republic_bridge.Text.{has_char, ◌<>◌, replace}
use trade_republic_bridge.Text.Replace.{replace-append}
use trade_republic_bridge.Domain.{foreign}
use trade_republic_bridge.Window.{DateTime, Iso, to_utc, to_utc_iso, end_of_time, overflow}

-- Documented behaviour of `datetime.isoformat`: a time in UTC ends in `+00:00`, and no `+` stands
-- before that.
pub record PrintsUtc (iso : Iso) : Type 0 where
  pub body : ℕ → String
  pub no_plus : (local : ℕ) → has_char b'+' (body local) ≡ false
  pub printed :
      (local : ℕ)
      → iso.isoformat (record { local = local; offset = some (pos 0) }) ≡ body local <> "+00:00"

to_utc_of_instant :
    (local utc : ℕ) (p : ℤ)
    → utc + pos_part p ≡ local + neg_part p
    → utc < end_of_time
    → to_utc local p ≡ ok (record { local = utc; offset = some (pos 0) })
unfolding to_utc
to_utc_of_instant local utc p same small = ground arith

z_suffix : replace "+00:00" "Z" "+00:00" ≡ "Z"
unfolding replace
z_suffix = refl

-- For a time with the offset `p`, `to_utc_iso` prints the wall clock of the same instant in UTC with
-- the suffix `Z`, provided that wall clock lies in the years 1 to 9999.
pub to_utc_iso_prints :
    (iso : Iso) (pr : PrintsUtc iso) (d : DateTime) (p : ℤ) (utc : ℕ)
    → d.offset ≡ some p
    → utc + pos_part p ≡ d.local + neg_part p
    → utc < end_of_time
    → to_utc_iso iso d ≡ ok (pr.body utc <> "Z")
unfolding to_utc_iso
to_utc_iso_prints iso pr d p utc e same small =
    rw (e, to_utc_of_instant d.local utc p same small, pr.printed utc)
      (ap ok (
        replace-append _ "00:00" "Z" (pr.body utc) "+00:00" (pr.no_plus utc)
        ∙ ap (◌<>◌ (pr.body utc)) z_suffix))

-- The instant of `d` has no wall clock in UTC: it lies before the year 1 or after the year 9999 there.
abbrev pub IsOutOfRange : DateTime → Type 0
IsOutOfRange d =
    (p : ℤ) × (d.offset ≡ some p)
    × ((d.local + neg_part p < pos_part p) ⊎ (end_of_time + pos_part p ≤ d.local + neg_part p))

pub to_utc_iso-overflow :
    (iso : Iso) (d : DateTime) → IsOutOfRange d → to_utc_iso iso d ≡ err (foreign overflow)
unfolding to_utc_iso to_utc
to_utc_iso-overflow iso d (p, e, out) = ground arith

-- A time is printed, or its printing overflows.
pub to_utc_iso-either :
    (iso : Iso) (d : DateTime)
    → ((x : String) × (to_utc_iso iso d ≡ ok x)) ⊎ (to_utc_iso iso d ≡ err (foreign overflow))
unfolding to_utc_iso to_utc
to_utc_iso-either iso d = elim (Result-cases (to_utc_iso iso d)) [
  | inl (x, e) ↦ inl (x, e)
  | inr (x, e) ↦ inr (ground arith)
]
