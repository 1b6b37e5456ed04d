-- ===== src/Web/Routes/Outcomes.antt =====
-- What the routes of an instance answer, and what they do to the registry
-- (tr_bridge/adapters/web/routes.py).

use trade_republic_bridge.Base.{
  ℕ, String, ◌≡◌, ◌≢◌, refl, ◌↔◌, inl, inr, Bool, Option, none, some, List, Result, ok, err, length,
  arith, Option-cases, Result-cases,
}
use trade_republic_bridge.Domain.{
  SessionState, LoginChallenge, state_value, instance_not_found, Exc, domain,
}
use trade_republic_bridge.Session.{Session, raises, fetch_timeline}
use trade_republic_bridge.Session.Calls.{start_login}
use trade_republic_bridge.Window.{DateTime, Iso, parse_window, to_utc_iso}
use trade_republic_bridge.Registry.{Instance, Registry, insert, lookup, get}
use trade_republic_bridge.Registry.Lookup.{lookup-insert_self, lookup-insert_other}
use trade_republic_bridge.Web.Routes.{
  Payload, status, login_state, timeline, get_instance_status, progress_map, on_session,
  post_instance_login, post_instance_login_2fa, get_instance_timeline,
}

module _ {Api : Type 0} where
  pub get-none :
      (reg : Registry Api) (name : String)
      → lookup name reg ≡ none
      → get reg name ≡ err (domain (instance_not_found name))
  unfolding get
  get-none reg name e = ground arith

  pub get-some :
      (reg : Registry Api) (name : String) {inst : Instance Api}
      → lookup name reg ≡ some inst
      → get reg name ≡ ok inst
  unfolding get
  get-some reg name e = ground arith

fetched_events :
    {A : Type 0} (s : Session) (answer : Result Exc A) {a : A}
    → s.state ≡ SessionState.confirmed
    → answer ≡ ok a
    → fetch_timeline s answer ≡ ok a
unfolding fetch_timeline
fetched_events s answer c e = ground arith

fetched_from :
    {A : Type 0} (s : Session) (answer : Result Exc A) {a : A}
    → fetch_timeline s answer ≡ ok a
    → (s.state ≡ SessionState.confirmed) × (answer ≡ ok a)
unfolding fetch_timeline
fetched_from s answer e = ground arith

fetch_raises :
    {A : Type 0} (s : Session) (answer : Result Exc A) {e : Exc}
    → s.state ≡ SessionState.confirmed
    → answer ≡ err e
    → fetch_timeline s answer ≡ err e
unfolding fetch_timeline
fetch_raises s answer c e = ground arith

module _ {Events Api : Type 0} where
  -- What the port raises for a valid window is what the timeline route raises.
  pub timeline_raises :
      {Event : Type 0} (iso : Iso) (now : ℕ) (port : DateTime → DateTime → Result Exc (List Event))
      (validate : List Event → Result Exc Events) (name : String) (since until : Option String)
      (reg : Registry Api) {a b : DateTime} {inst : Instance Api} {e : Exc}
      → parse_window iso now since until ≡ ok (a, b)
      → lookup name reg ≡ some inst
      → inst.session.state ≡ SessionState.confirmed
      → port a b ≡ err e
      → get_instance_timeline iso now port validate name since until reg ≡ err e
  unfolding get_instance_timeline
  timeline_raises iso now port validate name since until reg {a} {b} {inst} window known confirmed
        raised =
      ground (
        arith,
        window,
        get-some reg name known,
        fetch_raises inst.session (port a b) confirmed raised,
      )

  -- The status of a known instance is the state of its session.
  pub status_known :
      (reg : Registry Api) (name : String) {inst : Instance Api}
      → lookup name reg ≡ some inst
      → get_instance_status {Events = Events} name reg
        ≡ ok (status name (state_value inst.session.state))
  unfolding get_instance_status
  status_known reg name e = ground (arith, get-some reg name e)

  -- For a name that the registry does not hold, the status, login and 2FA routes raise
  -- `InstanceNotFoundError` with that name and change nothing.
  pub unknown_instance :
      (reg : Registry Api) (name code : String) (resumed : Result Exc Bool)
      (challenge : Result Exc LoginChallenge) (answer : String → Result Exc (Unit {0}))
      → lookup name reg ≡ none
      → let missing = domain (instance_not_found name) in
        (get_instance_status {Events = Events} name reg ≡ err missing)
        × (post_instance_login {Events = Events} resumed challenge name reg ≡ (raises missing, reg))
        × (post_instance_login_2fa {Events = Events} answer name code reg ≡ (raises missing, reg))
  unfolding get_instance_status post_instance_login post_instance_login_2fa on_session
  unknown_instance reg name code resumed challenge answer e =
      let missing = get-none reg name e in
      (ground (arith, missing), ground (arith, missing), ground (arith, missing))

  login_known :
      (reg : Registry Api) (name : String) (inst : Instance Api) (resumed : Result Exc Bool)
      (challenge : Result Exc LoginChallenge)
      → lookup name reg ≡ some inst
      → post_instance_login {Events = Events} resumed challenge name reg ≡ (
        progress_map
            (λ state. login_state (state_value state))
            (start_login resumed challenge inst.session).0,
        insert name (record inst { session = (start_login resumed challenge inst.session).1 }) reg,
      )
  unfolding post_instance_login on_session
  login_known reg name inst resumed challenge e = ground (arith, get-some reg name e)

  -- The login route runs the session's `start_login`: its result becomes the answer, the session as
  -- the call leaves it is the one that the registry holds for the name afterwards, with the same
  -- client, and every other name keeps its instance.
  pub post_instance_login_lem :
      (reg : Registry Api) (name : String) (inst : Instance Api) (resumed : Result Exc Bool)
      (challenge : Result Exc LoginChallenge) (other : String)
      → lookup name reg ≡ some inst
      → other ≢ name
      → let (answer, after) = post_instance_login {Events = Events} resumed challenge name reg in
        let (result, session) = start_login resumed challenge inst.session in
        (answer ≡ progress_map (λ state. login_state (state_value state)) result)
        × (lookup name after ≡ some (record inst { session = session }))
        × (lookup other after ≡ lookup other reg)
  post_instance_login_lem reg name inst resumed challenge other e n =
      rw (login_known reg name inst resumed challenge e)
        (refl, lookup-insert_self name _ reg, lookup-insert_other name other _ reg n)

  -- What a served timeline request stands for.
  pub record Served {Event : Type 0} (iso : Iso) (now : ℕ)
      (port : DateTime → DateTime → Result Exc (List Event))
      (validate : List Event → Result Exc Events) (name : String) (since until : Option String)
      (reg : Registry Api) (p : Payload Events) : Type 0 where
    pub start : DateTime
    pub stop : DateTime
    pub window : parse_window iso now since until ≡ ok (start, stop)
    pub inst : Instance Api
    pub known : lookup name reg ≡ some inst
    pub confirmed : inst.session.state ≡ SessionState.confirmed
    pub events : List Event
    pub fetched : port start stop ≡ ok events
    pub since_utc : String
    pub until_utc : String
    pub start_printed : to_utc_iso iso start ≡ ok since_utc
    pub stop_printed : to_utc_iso iso stop ≡ ok until_utc
    pub valid : Events
    pub validated : validate events ≡ ok valid
    pub payload : p ≡ timeline name since_utc until_utc (length events) valid

  -- The timeline route answers exactly when the window is valid, the name is known, its session is
  -- confirmed, the port gives events for exactly that window, both ends can be printed in UTC and the
  -- events pass their validation; the answer holds the name, the two printed ends, the events as the
  -- validation gives them and their number.
  pub get_instance_timeline_iff :
      {Event : Type 0} (iso : Iso) (now : ℕ) (port : DateTime → DateTime → Result Exc (List Event))
      (validate : List Event → Result Exc Events) (name : String) (since until : Option String)
      (reg : Registry Api) (p : Payload Events)
      → (get_instance_timeline iso now port validate name since until reg ≡ ok p)
        ↔ Served iso now port validate name since until reg p
  unfolding get_instance_timeline
  get_instance_timeline_iff iso now port validate name since until reg p = (to, from)
    where
      from :
          Served iso now port validate name since until reg p
          → get_instance_timeline iso now port validate name since until reg ≡ ok p
      from w = ground (
        arith,
        w.window,
        get-some reg name w.known,
        fetched_events w.inst.session _ w.confirmed w.fetched,
        w.start_printed,
        w.stop_printed,
        w.validated,
        w.payload,
      )

      to :
          get_instance_timeline iso now port validate name since until reg ≡ ok p
          → Served iso now port validate name since until reg p
      to e = elim (Result-cases (parse_window iso now since until)) [
        | inr (x, bad) ↦ absurd (ground arith)
        | inl ((a, b), win) ↦ elim (Option-cases (lookup name reg)) [
          | inl missing ↦ absurd (ground (arith, get-none reg name missing))
          | inr (inst, known) ↦ elim (Result-cases (fetch_timeline inst.session (port a b))) [
            | inr (x, bad) ↦ absurd (ground (arith, get-some reg name known))
            | inl (events, got) ↦ elim (Result-cases (to_utc_iso iso a)) [
              | inr (x, bad) ↦ absurd (ground (arith, get-some reg name known))
              | inl (x, first) ↦ elim (Result-cases (to_utc_iso iso b)) [
                | inr (y, bad) ↦ absurd (ground (arith, get-some reg name known))
                | inl (y, second) ↦ elim (Result-cases (validate events)) [
                  | inr (z, bad) ↦ absurd (ground (arith, get-some reg name known))
                  | inl (valid, passed) ↦
                      let (confirmed, fetched) = fetched_from inst.session _ got in
                      record {
                        start = a;
                        stop = b;
                        window = win;
                        inst = inst;
                        known = known;
                        confirmed = confirmed;
                        events = events;
                        fetched = fetched;
                        since_utc = x;
                        until_utc = y;
                        start_printed = first;
                        stop_printed = second;
                        valid = valid;
                        validated = passed;
                        payload = ground (arith, get-some reg name known);
                      }
                ]
              ]
            ]
          ]
        ]
      ]
