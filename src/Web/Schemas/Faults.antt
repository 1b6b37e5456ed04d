-- ===== src/Web/Schemas/Faults.antt =====
-- Timeline events that the response cannot hold (tr_bridge/adapters/web/schemas.py: `TimelineEvent`).
use trade_republic_bridge.Base.{
  inl, inr, none, ℕ, String, ◌≡◌, refl, ap, some, Option, List, [], ◌∷◌, ◌++◌, map, err,
}
use trade_republic_bridge.Domain.{foreign}
use trade_republic_bridge.Problem.{problem_response}
use trade_republic_bridge.Registry.{lookup}
use trade_republic_bridge.Web.Handlers.{of_exc, Starlette, handle}
use trade_republic_bridge.Web.Handlers.Answers.{handle_lem, internal}
use trade_republic_bridge.Web.Schemas.{
  timeline_event, instance_of, str, nothing, fields, Pydantic, IsPydantic, Lacking,
  validation_error, validate_events,
}

module _ (py : Pydantic) (laws : IsPydantic py) where
  open py use {Value}

  abbrev Dict : Type 0
  Dict = List (String × Value)

  map-append :
      (before : List Dict) (values : Dict) (after : List Dict)
      → map py.object (before ++ values ∷ after)
        ≡ map py.object before ++ py.object values ∷ map py.object after
  map-append [] values after = refl
  map-append (v ∷ before) values after =
      ap (λ vs. py.object v ∷ vs) (map-append before values after)

  -- An event without a key that it has to have, or whose title, which it need not have, is a dict.
  pub data IsDegenerate (values : Dict) : Type 0 where
    no_id : lookup "id" values ≡ none → IsDegenerate values
    no_timestamp : lookup "timestamp" values ≡ none → IsDegenerate values
    dict_title : (d : Dict) → lookup "title" values ≡ some (py.object d) → IsDegenerate values

  IsDegenerate-Lacking :
      (values : Dict) → IsDegenerate values → Lacking py values (fields timeline_event)
  IsDegenerate-Lacking values (no_id e) = inl (rw e refl)
  IsDegenerate-Lacking values (no_timestamp e) = inr (inl (rw e refl))
  IsDegenerate-Lacking values (dict_title d e) = inr (
      inr (
        inr (
          inl (
            rw e (
              laws.takes_none str nothing (py.object d) (laws.str_object d)
                (laws.nothing_object d))))))

  -- If one of the events has no `id` or no `timestamp`, or a dict as its `title`, then the whole
  -- response raises a `ValidationError`, however good the other events are, and the exception handlers
  -- answer that with the problem 500 `internal_error`.
  pub event_refused :
      (server : Starlette) (phrase : ℕ → Option String) (before after : List Dict) (values : Dict)
      → IsDegenerate values
      → let f = validation_error py (py.array (map py.object (before ++ values ∷ after))) in
        (validate_events py (before ++ values ∷ after) ≡ err (foreign f))
        × (handle {A = String} server phrase (of_exc (foreign f))
            ≡ some (problem_response internal))
  unfolding validate_events
  event_refused server phrase before after values degenerate =
      let f = validation_error py (py.array (map py.object (before ++ values ∷ after))) in
      let refused =
        laws.list_refuses (instance_of timeline_event) (map py.object before) (map py.object after)
          (py.object values)
          (laws.model_refuses timeline_event values refl
            (IsDegenerate-Lacking values degenerate)) in
      (
        rw (map-append before values after, refused) refl,
        handle_lem server String phrase (of_exc (foreign f)),
      )
