-- ===== src/Window/Again.antt =====
-- The window that a timeline response names, asked for again (tr_bridge/timewindow.py: `to_utc_iso`
-- and `parse_window`).
mod Tests
use trade_republic_bridge.Base.{
  ℕ, ◌+◌, ◌<◌, String, ◌≡◌, refl, true, Option, some, ok, arith, ℤ, pos, pos_part, neg_part,
  Bool-cases, inl, inr, leb, ltb, ◌&&◌, ◌-◌,
}
use trade_republic_bridge.Text.{◌<>◌}
use trade_republic_bridge.Window.{
  DateTime, Iso, as_aware, to_utc, to_utc_iso, has_time, parse_window, end_of_time,
}
use trade_republic_bridge.Window.Timed.{has_time-IsTimed}
use trade_republic_bridge.Window.Parse.{Reads, IsWindow, parse_window_iff}
use trade_republic_bridge.Window.Utc.{PrintsUtc, to_utc_iso_prints}

-- A time in UTC.
abbrev pub in_utc : ℕ → DateTime
in_utc local = record { local = local; offset = some (pos 0) }

-- Documented behaviour of `datetime.fromisoformat`: it reads what `isoformat` prints, also with `Z`
-- for `+00:00`; `isoformat` puts a `T` between date and time.
pub record ReadsPrinted (iso : Iso) : Type 0 where
  pub prints : PrintsUtc iso
  pub timed : (local : ℕ) → has_time (prints.body local <> "Z") ≡ true
  pub read :
      (local : ℕ)
      → local < end_of_time
      → iso.fromisoformat (prints.body local <> "Z") ≡ some (in_utc local)

-- Two times with an offset that are the same instant.
abbrev pub IsSameInstant : DateTime → DateTime → Type 0
IsSameInstant a b =
    (p : ℤ) × (q : ℤ) × (a.offset ≡ some p)
    × (b.offset ≡ some q)
    × (a.local + neg_part p + pos_part q ≡ b.local + neg_part q + pos_part p)

module _ (iso : Iso) (r : ReadsPrinted iso) where
  -- A printed time, and the wall clock in UTC that it shows.
  printed_at :
      (d : DateTime) (p : ℤ) {x : String}
      → d.offset ≡ some p
      → to_utc_iso iso d ≡ ok x
      → (utc : ℕ) × (utc + pos_part p ≡ d.local + neg_part p)
        × (utc < end_of_time)
        × (x ≡ r.prints.body utc <> "Z")
  unfolding to_utc_iso to_utc
  printed_at d p e shown =
      elim (Bool-cases (
        leb (pos_part p) (d.local + neg_part p)
        && ltb (d.local + neg_part p - pos_part p) end_of_time)) [
          | inl fits ↦
              let utc = d.local + neg_part p - pos_part p in
              let same : utc + pos_part p ≡ d.local + neg_part p = ground arith in
              let small : utc < end_of_time = ground arith in
              let printed = to_utc_iso_prints iso r.prints d p utc e same small in
              (utc, same, small, cc (printed, shown))
          | inr over ↦ absurd (ground arith)
        ]

  printed_again :
      (utc : ℕ) → utc < end_of_time → to_utc_iso iso (in_utc utc) ≡ ok (r.prints.body utc <> "Z")
  printed_again utc small =
      to_utc_iso_prints iso r.prints (in_utc utc) (pos 0) utc refl (ground arith) small

  read_again : (utc : ℕ) → utc < end_of_time → Reads iso (r.prints.body utc <> "Z") (in_utc utc)
  read_again utc small = record {
    parsed = in_utc utc;
    accepted = r.read utc small;
    timed = (has_time-IsTimed (r.prints.body utc <> "Z")).0 (r.timed utc);
    aware = inr (pos 0, refl, refl);
  }

  -- If a window is accepted and both of its ends can be printed, then the two printed texts are an
  -- accepted window too, at any later time: its ends are the same two instants, and print as the
  -- same texts.
  pub window_again :
      (now later : ℕ) (since : String) (until : Option String) (s u : DateTime) (x y : String)
      → parse_window iso now (some since) until ≡ ok (s, u)
      → to_utc_iso iso s ≡ ok x
      → to_utc_iso iso u ≡ ok y
      → (a : DateTime) × (b : DateTime) × (parse_window iso later (some x) (some y) ≡ ok (a, b))
        × IsSameInstant s a
        × IsSameInstant u b
        × (to_utc_iso iso a ≡ ok x)
        × (to_utc_iso iso b ≡ ok y)
  window_again now later since until s u x y accepted shown_s shown_u =
      let w = (parse_window_iff iso now (some since) until s u).0 accepted in
      let (p, q, s_offset, u_offset, before) = w.ordered in
      let (a, same_a, small_a, x_is) = printed_at s p s_offset shown_s in
      let (b, same_b, small_b, y_is) = printed_at u q u_offset shown_u in
      let again : IsWindow iso later (some x) (some y) (in_utc a) (in_utc b) = record {
        start = x;
        given = refl;
        reads_since = rw x_is (read_again a small_a);
        reads_until = rw y_is (read_again b small_b);
        ordered = (pos 0, pos 0, refl, refl, omega arith);
      } in
      (
        in_utc a,
        in_utc b,
        (parse_window_iff iso later (some x) (some y) (in_utc a) (in_utc b)).1 again,
        (p, pos 0, s_offset, refl, omega arith),
        (q, pos 0, u_offset, refl, omega arith),
        rw x_is (printed_again a small_a),
        rw y_is (printed_again b small_b),
      )
