-- ===== src/Pytr/Timeline.antt =====
-- The timeline request of the adapter (tr_bridge/adapters/pytr/pytr_client.py: `fetch_timeline`,
-- `_refresh_web_session`).
use trade_republic_bridge.Base.{
  Result-cases, inl, inr, ◌≡◌, ◌↔◌, Bool, true, false, not, List, ok, err, arith,
}
use trade_republic_bridge.Domain.{Exc, Foreign, domain, is_upstream, session_expired}
use trade_republic_bridge.Window.{DateTime}
use trade_republic_bridge.Pytr.{Pytr, Client, fetch_timeline}
use trade_republic_bridge.Pytr.Translate.{
  translate_refresh, translate_timeline, upstream, has_status,
}
use trade_republic_bridge.Pytr.Handle.{Has}
use trade_republic_bridge.Pytr.Errors.{is_rate_limited}

abbrev pub is_expired : Exc → Bool
is_expired (domain (session_expired _)) = true
is_expired _ = false

module _ (p : Pytr) where
  open p use {World, Api, Loop, Event}

  -- With a handle, a failure of `requests` in the refresh of the session ends the request before the
  -- timeline is opened: HTTP 401 as `SessionExpiredError`, 429 as `RateLimitedError`, and any other
  -- as `TrUpstreamError`.
  pub refresh_status :
      (c : Client Api) (w : World) (since until : DateTime) {a : Api} (f : Foreign) (w' : World)
      → Has p c a
      → p.settings a w ≡ (err f, w')
      → f.is_request ≡ true
      → (e : Exc) × (fetch_timeline p since until c w ≡ (err e, c, w'))
        × (is_expired e ≡ has_status 401 f)
        × (is_rate_limited e ≡ has_status 429 f)
        × (is_upstream e ≡ not (has_status 401 f))
  unfolding fetch_timeline translate_refresh upstream
  refresh_status c w since until f w' h x r =
      (translate_refresh c.config.name f, ground arith, ground arith, ground arith, ground arith)

  -- With a handle and a refreshed session, an exception of the websocket loop ends the request: HTTP
  -- 401 as `SessionExpiredError`, and any other `Exception`, whatever its class, as
  -- `TrUpstreamError`.
  pub loop_status :
      (c : Client Api) (w w₁ w₂ w₃ : World) (since until : DateTime) {a : Api} (l : Loop)
      (f : Foreign)
      → Has p c a
      → p.settings a w ≡ (ok tt, w₁)
      → p.make_timeline a c.session_dir since until w₁ ≡ (ok l, w₂)
      → p.tl_loop l w₂ ≡ (err f, w₃)
      → f.is_exception ≡ true
      → (e : Exc) × (fetch_timeline p since until c w ≡ (err e, c, w₃))
        × (is_expired e ≡ has_status 401 f)
        × (is_upstream e ≡ not (has_status 401 f))
  unfolding fetch_timeline translate_timeline
  loop_status c w w₁ w₂ w₃ since until l f h x y z r =
      (translate_timeline c.config.name f, ground arith, ground arith, ground arith)

  -- How a timeline was fetched.
  pub record Fetched (c : Client Api) (a : Api) (since until : DateTime) (before after : World)
      (events : List Event) : Type 0 where
    pub refreshed : World
    pub opened : World
    pub loop : Loop
    pub refresh : p.settings a before ≡ (ok tt, refreshed)
    pub timeline : p.make_timeline a c.session_dir since until refreshed ≡ (ok loop, opened)
    pub ended : p.tl_loop loop opened ≡ (ok tt, after)
    pub result : events ≡ p.events loop after

  Fetched-to :
      (c : Client Api) (w after : World) (since until : DateTime) {a : Api} (events : List Event)
      → Has p c a
      → fetch_timeline p since until c w ≡ (ok events, c, after)
      → Fetched c a since until w after events
  unfolding fetch_timeline
  Fetched-to c w after since until {a} events h x =
      let refreshed : World = (p.settings a w).1 in
      let (made, opened) = p.make_timeline a c.session_dir since until refreshed in
      elim (Result-cases made) [
        | inl (loop, e) ↦ record {
          refreshed = refreshed;
          opened = opened;
          loop = loop;
          refresh = ground arith;
          timeline = ground arith;
          ended = ground arith;
          result = ground arith;
        }
        | inr (f, e) ↦ absurd (ground arith)
      ]

  Fetched-from :
      (c : Client Api) (w after : World) (since until : DateTime) {a : Api} (events : List Event)
      → Has p c a
      → Fetched c a since until w after events
      → fetch_timeline p since until c w ≡ (ok events, c, after)
  unfolding fetch_timeline
  Fetched-from c w after since until events h r =
      ground (arith, r.refresh, r.timeline, r.ended, r.result)

  -- With a handle, `fetch_timeline` returns events exactly when it has refreshed the web session,
  -- opened a timeline for the very window that was asked for and run it to its end, in this order,
  -- and they are the events of that timeline, all of them and unchanged. The client stays as it was.
  pub fetch_timeline_iff :
      (c : Client Api) (w after : World) (since until : DateTime) {a : Api} (events : List Event)
      → Has p c a
      → (fetch_timeline p since until c w ≡ (ok events, c, after))
        ↔ Fetched c a since until w after events
  fetch_timeline_iff c w after since until events h =
      (Fetched-to c w after since until events h, Fetched-from c w after since until events h)
