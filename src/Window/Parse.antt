-- ===== src/Window/Parse.antt =====
-- What an accepted window means (tr_bridge/timewindow.py: `_parse_iso`, `parse_window`).
use trade_republic_bridge.Base.{
  ℕ, ◌+◌, ◌<◌, String, ◌≡◌, ◌≢◌, ◌↔◌, Bool, true, false, Option, none, some, ok, err, arith, ℤ, pos,
  pos_part, neg_part, Option-cases, Result-cases, inl, inr, ◌⊎◌, ◌∙◌, refl, sym,
}
use trade_republic_bridge.Domain.{invalid_request, Exc, domain}
use trade_republic_bridge.Window.Timed.{IsTimed, has_time-IsTimed}
use trade_republic_bridge.Window.{
  DateTime, Iso, as_aware, le_datetime, parse_iso, parse_until, check_order, parse_window,
}

-- `s` is strictly earlier than `u`: both have an offset, and their instants are in that order.
abbrev Before : DateTime → DateTime → Type 0
Before s u =
    (p : ℤ) × (q : ℤ) × (s.offset ≡ some p)
    × (u.offset ≡ some q)
    × (s.local + neg_part p + pos_part q < u.local + neg_part q + pos_part p)

abbrev IsAware : DateTime → Type 0
IsAware d = d.offset ≢ none

as_aware-IsAware : (d : DateTime) → IsAware (as_aware d)
unfolding as_aware
as_aware-IsAware d = ground arith

-- The order of two instants, for known offsets.
check_order_at :
    (iso : Iso) (s u : DateTime) {p q : ℤ} {s' u' : DateTime}
    → s.offset ≡ some p
    → u.offset ≡ some q
    → check_order iso s u ≡ ok (s', u')
    → (s' ≡ s) × (u' ≡ u) × (s.local + neg_part p + pos_part q < u.local + neg_part q + pos_part p)
unfolding check_order le_datetime
check_order_at iso s u a b e = ground arith

check_order_of_Before : (iso : Iso) (s u : DateTime) → Before s u → check_order iso s u ≡ ok (s, u)
unfolding check_order le_datetime
check_order_of_Before iso s u (p, q, a, b, lt) = ground arith

offset_of : (d : DateTime) → IsAware d → (p : ℤ) × (d.offset ≡ some p)
offset_of d a = elim (Option-cases d.offset) [ inl naive ↦ absurd (a naive) | inr found ↦ found ]

check_order-Before :
    (iso : Iso) (s u : DateTime) {s' u' : DateTime}
    → IsAware s
    → IsAware u
    → check_order iso s u ≡ ok (s', u')
    → (s' ≡ s) × (u' ≡ u) × Before s u
check_order-Before iso s u a b e =
    let (p, hp) = offset_of s a in
    let (q, hq) = offset_of u b in
    let (same_s, same_u, lt) = check_order_at iso s u hp hq e in
    (same_s, same_u, (p, q, hp, hq, lt))

-- The exception is an `InvalidRequestError`.
abbrev pub is_invalid_request : Exc → Bool
is_invalid_request (domain (invalid_request _)) = true
is_invalid_request _ = false

check_order_error :
    (iso : Iso) (s u : DateTime) {e : Exc}
    → IsAware s
    → IsAware u
    → check_order iso s u ≡ err e
    → is_invalid_request e ≡ true
unfolding check_order le_datetime
check_order_error iso s u a b x = ground arith

module _ (iso : Iso) where
  -- The time that a parsed text stands for: in UTC if it names no offset, and else just as it is.
  abbrev pub StandsFor : DateTime → DateTime → Type 0
  StandsFor parsed d =
      ((parsed.offset ≡ none) × (d ≡ record { local = parsed.local; offset = some (pos 0) }))
      ⊎ ((p : ℤ) × (parsed.offset ≡ some p) × (d ≡ parsed))

  aware_kept : (d : DateTime) {p : ℤ} → d.offset ≡ some p → as_aware d ≡ d
  unfolding as_aware
  aware_kept d e = ground arith

  as_aware-StandsFor : (parsed d : DateTime) → (d ≡ as_aware parsed) ↔ StandsFor parsed d
  unfolding as_aware
  as_aware-StandsFor parsed d = (
    λ e. elim (Option-cases parsed.offset) [
      | inl naive ↦ inl (naive, e ∙ rw naive refl)
      | inr (p, at) ↦ inr (p, at, e ∙ aware_kept parsed at)
    ],
    λ h. elim h [
      | inl (naive, same) ↦ rw naive same
      | inr (p, at, same) ↦ same ∙ sym (aware_kept parsed at)
    ],
  )

  -- `value` is a full ISO-8601 timestamp that stands for `d`.
  pub record Reads (value : String) (d : DateTime) : Type 0 where
    pub parsed : DateTime
    pub accepted : iso.fromisoformat value ≡ some parsed
    pub timed : IsTimed value
    pub aware : StandsFor parsed d

  parse_iso-Reads :
      (value field : String) {d : DateTime} → (parse_iso iso value field ≡ ok d) ↔ Reads value d
  unfolding parse_iso
  parse_iso-Reads value field {d} = (to, from)
    where
      to : parse_iso iso value field ≡ ok d → Reads value d
      to e = elim (Option-cases (iso.fromisoformat value)) [
        | inl none_read ↦ absurd (ground arith)
        | inr (parsed, read) ↦ record {
          parsed = parsed;
          accepted = read;
          timed = (has_time-IsTimed value).0 (ground arith);
          aware = (as_aware-StandsFor parsed d).0 (ground arith);
        }
      ]

      from : Reads value d → parse_iso iso value field ≡ ok d
      from r = ground (
        arith,
        r.accepted,
        (has_time-IsTimed value).1 r.timed,
        (as_aware-StandsFor r.parsed d).1 r.aware,
      )

  parse_iso_error :
      (value field : String) {e : Exc}
      → parse_iso iso value field ≡ err e
      → is_invalid_request e ≡ true
  unfolding parse_iso
  parse_iso_error value field x = ground arith

  Reads-IsAware : {value : String} {d : DateTime} → Reads value d → IsAware d
  Reads-IsAware {value} {d} r =
      rw ((as_aware-StandsFor r.parsed d).1 r.aware) (as_aware-IsAware r.parsed)

  -- What `until` stands for at the time `now`.
  abbrev pub ReadsUntil : ℕ → Option String → DateTime → Type 0
  ReadsUntil now none d = d ≡ record { local = now; offset = some (pos 0) }
  ReadsUntil now (some value) d = Reads value d

  parse_until-Reads :
      (now : ℕ) (until : Option String) {d : DateTime}
      → (parse_until iso now until ≡ ok d) ↔ ReadsUntil now until d
  unfolding parse_until
  parse_until-Reads now none = ((λ e. ground arith), λ e. ground arith)
  parse_until-Reads now (some value) = parse_iso-Reads value "until"

  ReadsUntil-IsAware :
      (now : ℕ) (until : Option String) (d : DateTime) → ReadsUntil now until d → IsAware d
  ReadsUntil-IsAware now none d e = λ n. ground arith
  ReadsUntil-IsAware now (some value) d r = Reads-IsAware r

  parse_until_error :
      (now : ℕ) (until : Option String) {e : Exc}
      → parse_until iso now until ≡ err e
      → is_invalid_request e ≡ true
  unfolding parse_until
  parse_until_error now none x = cc
  parse_until_error now (some value) x = parse_iso_error value "until" x

  -- The windows that a request stands for. It has to name a start.
  pub record IsWindow (now : ℕ) (since until : Option String) (s u : DateTime) : Type 0 where
    pub start : String
    pub given : since ≡ some start
    pub reads_since : Reads start s
    pub reads_until : ReadsUntil now until u
    pub ordered : Before s u

  IsWindow-to :
      (now : ℕ) (since : String) (until : Option String) {s u : DateTime}
      → parse_window iso now (some since) until ≡ ok (s, u)
      → IsWindow now (some since) until s u
  unfolding parse_window
  IsWindow-to now since until {s} {u} e = elim (Result-cases (parse_iso iso since "since")) [
    | inl (a, first) ↦ elim (Result-cases (parse_until iso now until)) [
      | inl (b, second) ↦
          let first_reads = (parse_iso-Reads since "since").0 first in
          let second_reads = (parse_until-Reads now until).0 second in
          let (same_s, same_u, before) =
            check_order-Before iso a b {s' = s} {u' = u} (Reads-IsAware first_reads)
              (ReadsUntil-IsAware now until b second_reads) (ground arith) in
          record {
            start = since;
            given = refl;
            reads_since = rw same_s first_reads;
            reads_until = rw same_u second_reads;
            ordered = rw (same_s, same_u) before;
          }
      | inr (x, bad) ↦ absurd (ground arith)
    ]
    | inr (x, bad) ↦ absurd (ground arith)
  ]

  IsWindow-from :
      (now : ℕ) (since until : Option String) {s u : DateTime}
      → IsWindow now since until s u
      → parse_window iso now since until ≡ ok (s, u)
  unfolding parse_window
  IsWindow-from now since until {s} {u} w = ground (
    arith,
    w.given,
    (parse_iso-Reads w.start "since").1 w.reads_since,
    (parse_until-Reads now until).1 w.reads_until,
    check_order_of_Before iso s u w.ordered,
  )

  -- `parse_window` accepts a request exactly when `since` is given, it and `until`, if that is given,
  -- are ISO-8601 timestamps with a separator between date and time, and the first instant is strictly
  -- earlier than the second. It returns those two times: each with the offset that it names and in UTC
  -- if it names none, and the clock's time in UTC for an `until` that is left out.
  pub parse_window_iff :
      (now : ℕ) (since until : Option String) (s u : DateTime)
      → (parse_window iso now since until ≡ ok (s, u)) ↔ IsWindow now since until s u
  unfolding parse_window
  parse_window_iff now none until s u = ((λ e. absurd (ground arith)), IsWindow-from now none until)
  parse_window_iff now (some since) until s u =
      (IsWindow-to now since until, IsWindow-from now (some since) until)

  -- Whatever `parse_window` raises is an `InvalidRequestError`: it never compares a naive value with
  -- an aware one.
  pub parse_window_error :
      (now : ℕ) (since until : Option String) {e : Exc}
      → parse_window iso now since until ≡ err e
      → is_invalid_request e ≡ true
  unfolding parse_window
  parse_window_error now none until x = ground arith
  parse_window_error now (some since) until x = elim (Result-cases (parse_iso iso since "since")) [
    | inl (a, first) ↦ elim (Result-cases (parse_until iso now until)) [
      | inl (b, second) ↦
          check_order_error iso a b (Reads-IsAware ((parse_iso-Reads since "since").0 first))
            (ReadsUntil-IsAware now until b ((parse_until-Reads now until).0 second)) (ground arith)
      | inr (y, bad) ↦ parse_until_error now until (ground arith)
    ]
    | inr (y, bad) ↦ parse_iso_error since "since" (ground arith)
  ]
