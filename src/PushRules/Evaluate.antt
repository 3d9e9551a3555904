-- ===== src/PushRules/Evaluate.antt =====
-- `PushRuleEvaluator::evaluate` of lib/structs/pushrules.cpp.
use mtxclient.Shared.{
  String, Bool, not, Option, none, some, List, [], ◌∷◌, ◌++◌, if◌then◌else◌, lookup,
}
use mtxclient.Libraries.Json.{JsonLibrary}
use mtxclient.Libraries.Re2.{Re2Library}
use mtxclient.PushRules.Types.{
  RelationType, unsupported, rel_type_eq, Action, Relation, RoomContext,
}
use mtxclient.PushRules.Values.{Event, RelatedEvents, Outcome, ok, type_error, ◌>>=◌}
use mtxclient.PushRules.Flatten.{flatten_event}
use mtxclient.PushRules.Optimized.{OptimizedRule, matches}
use mtxclient.PushRules.Build.{OptimizedRules}

-- `relatedEventsFlat[rel_type].….push_back(ev)`
abbrev push_related : Bool → Event → RelatedEvents → RelatedEvents
push_related is_fallback ev r =
    if is_fallback
    then record r { fallbacks = r.fallbacks ++ ev ∷ [] }
    else record r { events = r.events ++ ev ∷ [] }

unfoldable pub add_related :
    RelationType
    → Bool
    → Event
    → List (RelationType × RelatedEvents)
    → List (RelationType × RelatedEvents)
add_related rel_type is_fallback ev [] =
    (rel_type, push_related is_fallback ev (record { fallbacks = []; events = [] })) ∷ []
add_related rel_type is_fallback ev ((t, r) ∷ related) =
    if rel_type_eq rel_type t
    then (t, push_related is_fallback ev r) ∷ related
    else (t, r) ∷ add_related rel_type is_fallback ev related

-- A return with the actions that were found, or what comes next.
infixr 4 ◌or_else◌
abbrev pub ◌or_else◌ : Option (List Action) → Outcome (List Action) → Outcome (List Action)
none or_else next = next
some actions or_else next = ok actions

module _ (json : JsonLibrary) where
  open json use {Json, value}

  -- The loop that fills `relatedEventsFlat`.
  unfoldable pub flatten_related :
      List (RelationType × RelatedEvents)
      → List (Relation × Json)
      → List (RelationType × RelatedEvents)
  flatten_related related [] = related
  flatten_related related ((rel, ev) ∷ events) =
      flatten_related
        (if not (rel_type_eq rel.rel_type unsupported)
          then add_related rel.rel_type rel.is_fallback (flatten_event json ev) related
          else related)
        events

  -- `event_json.value(key, "")`
  unfoldable pub read_text : Json → String → Outcome String
  read_text j key = elim (value j key "") [ none ↦ type_error | some s ↦ ok s ]

module _ (re2 : Re2Library) where
  -- The loops over `override_`, `content` and `underride`.
  unfoldable pub first_match :
      List (OptimizedRule re2)
      → Event
      → RoomContext
      → List (RelationType × RelatedEvents)
      → Outcome (Option (List Action))
  first_match [] ev ctx related = ok none
  first_match (rule ∷ rules) ev ctx related =
      let rest = first_match rules ev ctx related in
      do matched ← matches re2 rule ev ctx related; if matched then ok (some rule.actions) else rest

  abbrev pub actions_of : Option (OptimizedRule re2) → Option (List Action)
  actions_of none = none
  actions_of (some rule) = some rule.actions

module _ (json : JsonLibrary) (re2 : Re2Library) where
  open json use {Json}

  -- The JSON of the event is the one that `to_json` of `TimelineEvents` gives.
  unfoldable pub evaluate :
      OptimizedRules re2 → Json → RoomContext → List (Relation × Json) → Outcome (List Action)
  unfolding read_text
  evaluate rules event_json ctx related_events =
      let flat_event = flatten_event json event_json in
      let related = flatten_related json [] related_events in
      do
        override_found ← first_match re2 rules.override_rules flat_event ctx related
        override_found or_else do
          content_found ← first_match re2 rules.content flat_event ctx related
          content_found or_else do
            room_id ← read_text json event_json "room_id"
            actions_of re2 (lookup room_id rules.room) or_else do
              sender ← read_text json event_json "sender"
              actions_of re2 (lookup sender rules.sender) or_else do
                underride_found ← first_match re2 rules.underride flat_event ctx related
                underride_found or_else ok []
