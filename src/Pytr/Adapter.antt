-- ===== src/Pytr/Adapter.antt =====
-- The pytr adapter behind the port (tr_bridge/adapters/pytr/pytr_client.py: `PytrClient`, for the
-- `TradeRepublicClient` of tr_bridge/application/ports.py).
use trade_republic_bridge.Base.{
  String, ◌≡◌, Bool, true, not, ◌||◌, Option, none, some, List, Result, ok, err, arith,
  Result-cases, refl, inl, inr, ◌⊎◌, false,
}
use trade_republic_bridge.Text.{◌<>◌}
use trade_republic_bridge.Domain.{Foreign, foreign}
use trade_republic_bridge.Window.{DateTime}
use trade_republic_bridge.Port.{TradeRepublicClient, is_translated}
use trade_republic_bridge.Pytr.{
  Pytr, Client, build_api, ensure_api, resume_session, start_login, complete_login, fetch_timeline,
  refresh_web_session, complete, confirm_weblogin, Action, run, catching, gets, ◌>>=◌, ◌>>◌,
}
use trade_republic_bridge.Pytr.Translate.{
  translate_login, translate_code, translate_refresh, translate_timeline, upstream,
}

-- The call raised no exception of `requests`.
abbrev no_request : {A : Type 0} → Result Foreign A → Bool
no_request (ok a) = true
no_request (err f) = not f.is_request

-- Every exception of `requests` is an `Exception`.
abbrev is_regular : {A : Type 0} → Result Foreign A → Bool
is_regular (ok a) = true
is_regular (err f) = not f.is_request || f.is_exception

-- The constructors of pytr and the making of a directory do not talk to Trade Republic.
pub record IsLocal (p : Pytr) : Type 0 where
  pub make_dir : (dir : String) (w : p.World) → no_request (p.make_dir dir w).0 ≡ true
  pub make_api :
      (phone pin credentials cookies : String) (w : p.World)
      → no_request (p.make_api phone pin credentials cookies w).0 ≡ true
  pub make_timeline :
      (a : p.Api) (dir : String) (since until : DateTime) (w : p.World)
      → no_request (p.make_timeline a dir since until w).0 ≡ true
  pub regular : (l : p.Loop) (w : p.World) → is_regular (p.tl_loop l w).0 ≡ true

module _ (p : Pytr) (local : IsLocal p) where
  open p use {World, Api, Event}

  ensure_translates : (c : Client Api) (w : World) → is_translated (ensure_api p c w).0 ≡ true
  unfolding ensure_api build_api
  ensure_translates c w = ground (
    arith,
    local.make_dir c.session_dir w,
    local.make_api c.config.phone c.config.pin (c.session_dir <> "/credentials.json")
        (c.session_dir <> "/cookies.txt") (p.make_dir c.session_dir w).1,
  )

  pub resume_translates :
      (c : Client Api) (w : World) → is_translated (resume_session p c w).0 ≡ true
  unfolding resume_session translate_login upstream
  resume_translates c w = ground (arith, ensure_translates c w)

  pub start_translates : (c : Client Api) (w : World) → is_translated (start_login p c w).0 ≡ true
  unfolding start_login translate_login upstream
  start_translates c w = ground (arith, ensure_translates c w)

  pub complete_translates :
      (code : Option String) (c : Client Api) (w : World)
      → is_translated (complete_login p code c w).0 ≡ true
  unfolding complete_login complete confirm_weblogin translate_code upstream
  complete_translates code c w = elim code [
    | none ↦ ground (arith, ensure_translates c w)
    | some x ↦ ground (arith, ensure_translates c w)
  ]

  -- Steps that raise no transport-level failure, one after the other.
  bind_translates :
      {A B : Type 0} (m : Action p A) (k : A → Action p B) (c : Client Api) (w : World)
      → is_translated (m c w).0 ≡ true
      → ((a : A) (d : Client Api) (v : World) → is_translated (k a d v).0 ≡ true)
      → is_translated (◌>>=◌ p m k c w).0 ≡ true
  bind_translates m k c w first rest = elim (Result-cases (m c w).0) [
    | inl (a, e) ↦ ground (arith, e, rest a (m c w).1 (m c w).2)
    | inr (x, e) ↦ ground (arith, e, first)
  ]

  refresh_translates :
      (api : Api) (c : Client Api) (w : World)
      → is_translated (refresh_web_session p api c w).0 ≡ true
  unfolding refresh_web_session translate_refresh upstream
  refresh_translates api c w = ground arith

  loop_translates :
      (l : p.Loop) (c : Client Api) (w : World)
      → is_translated (catching p translate_timeline (run p (p.tl_loop l)) c w).0 ≡ true
  unfolding translate_timeline
  loop_translates l c w = ground (arith, local.regular l w)

  make_translates :
      (a : Api) (dir : String) (since until : DateTime) (c : Client Api) (w : World)
      → is_translated (run p (p.make_timeline a dir since until) c w).0 ≡ true
  make_translates a dir since until c w = ground (arith, local.make_timeline a dir since until w)

  -- The steps of `fetch_timeline`, from the last one back.
  abbrev looped : p.Loop → Action p (List Event)
  looped l = ◌>>◌ p (catching p translate_timeline (run p (p.tl_loop l))) (gets p (p.events l))

  abbrev made : DateTime → DateTime → String → Api → Action p (List Event)
  made since until dir a = ◌>>=◌ p (run p (p.make_timeline a dir since until)) looped

  abbrev refreshed : DateTime → DateTime → String → Api → Action p (List Event)
  refreshed since until dir a = ◌>>◌ p (refresh_web_session p a) (made since until dir a)

  looped_translates :
      (l : p.Loop) (c : Client Api) (w : World) → is_translated (looped l c w).0 ≡ true
  looped_translates l c w =
      bind_translates (catching p translate_timeline (run p (p.tl_loop l)))
        (λ _. gets p (p.events l)) c w (loop_translates l c w) (λ _ d v. refl)

  made_translates :
      (since until : DateTime) (dir : String) (a : Api) (c : Client Api) (w : World)
      → is_translated (made since until dir a c w).0 ≡ true
  made_translates since until dir a c w =
      bind_translates (run p (p.make_timeline a dir since until)) looped c w
        (make_translates a dir since until c w) looped_translates

  refreshed_translates :
      (since until : DateTime) (dir : String) (a : Api) (c : Client Api) (w : World)
      → is_translated (refreshed since until dir a c w).0 ≡ true
  refreshed_translates since until dir a c w =
      bind_translates (refresh_web_session p a) (λ _. made since until dir a) c w
        (refresh_translates a c w) (λ _. made_translates since until dir a)

  pub fetch_translates :
      (since until : DateTime) (c : Client Api) (w : World)
      → is_translated (fetch_timeline p since until c w).0 ≡ true
  unfolding fetch_timeline
  fetch_translates since until c w =
      bind_translates (ensure_api p) (refreshed since until c.session_dir) c w
        (ensure_translates c w) (refreshed_translates since until c.session_dir)

module _ (p : Pytr) where
  open p use {World, Api}

  -- What may leave `complete_login` as it is: what making the handle raised, and what is neither a
  -- `ValueError` nor of `requests`.
  abbrev pub PassesCode : Client Api → World → Foreign → Type 0
  PassesCode c w f =
      ((ensure_api p c w).0 ≡ err (foreign f))
      ⊎ ((f.is_value_error ≡ false) × (f.is_request ≡ false))

  -- What may leave `fetch_timeline` as it is: what making the handle or the timeline raised, what is
  -- not of `requests` in the refresh, and what is no `Exception`.
  pub data PassesTimeline (since until : DateTime) (c : Client Api) (w : World) (f : Foreign)
      : Type 0 where
    of_handle : (ensure_api p c w).0 ≡ err (foreign f) → PassesTimeline since until c w f
    of_refresh :
        (a : Api) (v : World)
        → (p.settings a v).0 ≡ err f
        → f.is_request ≡ false
        → PassesTimeline since until c w f
    of_timeline :
        (a : Api) (v : World)
        → (p.make_timeline a c.session_dir since until v).0 ≡ err f
        → PassesTimeline since until c w f
    of_system : f.is_exception ≡ false → PassesTimeline since until c w f

  complete_passes :
      (code : Option String) (c : Client Api) (w : World) (f : Foreign)
      → (complete_login p code c w).0 ≡ err (foreign f)
      → PassesCode c w f
  unfolding complete_login complete confirm_weblogin translate_code upstream
  complete_passes none c w f e = elim (Result-cases (ensure_api p c w).0) [
    | inr (x, raised) ↦ inl (ground (arith, raised))
    | inl (a, made) ↦ inr (ground (arith, made), ground (arith, made))
  ]
  complete_passes (some x) c w f e = elim (Result-cases (ensure_api p c w).0) [
    | inr (x, raised) ↦ inl (ground (arith, raised))
    | inl (a, made) ↦ inr (ground (arith, made), ground (arith, made))
  ]

  fetch_passes :
      (since until : DateTime) (c : Client Api) (w : World) (f : Foreign)
      → (fetch_timeline p since until c w).0 ≡ err (foreign f)
      → PassesTimeline since until c w f
  unfolding fetch_timeline refresh_web_session translate_refresh translate_timeline upstream
  fetch_passes since until c w f e = elim (Result-cases (ensure_api p c w).0) [
    | inr (x, raised) ↦ of_handle (ground (arith, raised))
    | inl (a, made) ↦
        let v : World = (ensure_api p c w).2 in
        elim (Result-cases (p.settings a v).0) [
          | inr (g, refused) ↦
              of_refresh a v (ground (arith, made, refused)) (ground (arith, made, refused))
          | inl (_, refreshed) ↦
              let u : World = (p.settings a v).1 in
              elim (Result-cases (p.make_timeline a c.session_dir since until u).0) [
                | inr (g, refused) ↦ of_timeline a u (ground (arith, made, refreshed, refused))
                | inl (l, opened) ↦ of_system (ground (arith, made, refreshed, opened))
              ]
        ]
  ]

abbrev ended : {A B C : Type 0} → A × B × C → A × (B × C)
ended (result, client, world) = (result, (client, world))

-- `PytrClient` as the port of the session.
abbrev pub pytr_port : (p : Pytr) → IsLocal p → TradeRepublicClient
pytr_port p local = record {
  State = Client p.Api × p.World;
  Event = p.Event;
  resume_session = λ (c, w). ended (resume_session p c w);
  start_login = λ (c, w). ended (start_login p c w);
  complete_login = λ code (c, w). ended (complete_login p code c w);
  fetch_timeline = λ since until (c, w). ended (fetch_timeline p since until c w);
  resume_translates = λ (c, w). resume_translates p local c w;
  start_translates = λ (c, w). start_translates p local c w;
  complete_translates = λ code (c, w). complete_translates p local code c w;
  fetch_translates = λ since until (c, w). fetch_translates p local since until c w;
}

-- What leaves the four methods of the port, with a pytr whose constructors do not talk to Trade
-- Republic: a domain error or an exception that is not of `requests`. What leaves `complete_login`
-- untranslated is no `ValueError` either, unless it came from making the handle. What leaves
-- `fetch_timeline` untranslated came from making the handle or the timeline, was raised in the refresh
-- and is not of `requests`, or is no `Exception`: no `Exception` of the running timeline passes.
pub adapter_translates :
    (p : Pytr) (local : IsLocal p) (code : Option String) (since until : DateTime)
    (c : Client p.Api) (w : p.World)
    → (is_translated (resume_session p c w).0 ≡ true)
      × (is_translated (start_login p c w).0 ≡ true)
      × (is_translated (complete_login p code c w).0 ≡ true)
      × (is_translated (fetch_timeline p since until c w).0 ≡ true)
      × ((f : Foreign) → (complete_login p code c w).0 ≡ err (foreign f) → PassesCode p c w f)
      × ((f : Foreign)
          → (fetch_timeline p since until c w).0 ≡ err (foreign f)
          → PassesTimeline p since until c w f)
adapter_translates p local code since until c w = (
  resume_translates p local c w,
  start_translates p local c w,
  complete_translates p local code c w,
  fetch_translates p local since until c w,
  complete_passes p code c w,
  fetch_passes p since until c w,
)
