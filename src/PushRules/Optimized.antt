-- ===== src/PushRules/Optimized.antt =====
-- `PushRuleEvaluator::OptimizedRules::OptimizedRule` of lib/structs/pushrules.cpp and its tests.
use Prim.Native.String
use mtxclient.Shared.{
  ℕ, String, Bool, true, false, not, ◌&&◌, ◌||◌, Option, none, some, List, [], ◌∷◌, all, any, ltb,
  leb, ◌==◌, str_eq, if◌then◌else◌, lookup, ℤ, lt_ℤ,
}
use mtxclient.PowerLevels.{user_level, notification_level}
use mtxclient.Libraries.Re2.{Re2Library}
use mtxclient.PushRules.Types.{RelationType, rel_type_eq, NonCompoundJsonValue, Action, RoomContext}
use mtxclient.PushRules.Values.{
  PushJsonValue, Event, RelatedEvents, Outcome, ok, bad_variant_access, ◌>>=◌, widen,
  non_compound_eq, push_json_eq,
}

pub record PatternCondition (re2 : Re2Library) : Type 0 where
  pub pattern : Option re2.Regex
  pub field : String

pub record IsCondition : Type 0 where
  pub value : NonCompoundJsonValue
  pub field : String

pub record ContainsCondition : Type 0 where
  pub value : NonCompoundJsonValue
  pub field : String

pub record RelatedEventCondition (re2 : Re2Library) : Type 0 where
  pub ev_match : PatternCondition re2
  pub rel_type : RelationType
  pub include_fallbacks : Bool

-- `MemberCountCondition::Comp`
pub data Comp : Type 0 where
  eq lt le ge gt : Comp

pub record MemberCountCondition : Type 0 where
  pub count : ℕ
  pub op : Comp

pub record OptimizedRule (re2 : Re2Library) : Type 0 where
  pub patterns : List (PatternCondition re2)
  pub is : List IsCondition
  pub contains : List ContainsCondition
  pub no_mentions_field : Bool
  pub related_event_patterns : List (RelatedEventCondition re2)
  pub membercounts : List MemberCountCondition
  pub notification_levels : List String
  pub check_displayname : Bool
  pub actions : List Action

-- `OptimizedRule rule;`
abbrev pub empty_rule : (re2 : Re2Library) → OptimizedRule re2
empty_rule re2 = record {
  patterns = [];
  is = [];
  contains = [];
  no_mentions_field = false;
  related_event_patterns = [];
  membercounts = [];
  notification_levels = [];
  check_displayname = false;
  actions = [];
}

abbrev pub has : String → Event → Bool
has field ev = elim (lookup field ev) [ none ↦ false | some v ↦ true ]

-- `IsCondition::matches`
is_value : NonCompoundJsonValue → Option PushJsonValue → Bool
is_value value none = false
is_value value (some v) = push_json_eq v (widen value)

unfoldable pub is_matches : IsCondition → Event → Bool
unfolding is_value
is_matches cond ev = is_value cond.value (lookup cond.field ev)

-- `ContainsCondition::matches`
contains_value : NonCompoundJsonValue → Option PushJsonValue → Bool
contains_value value (some (PushJsonValue.vector arr)) = any (λ x. non_compound_eq x value) arr
contains_value value _ = false

unfoldable pub contains_matches : ContainsCondition → Event → Bool
unfolding contains_value
contains_matches cond ev = contains_value cond.value (lookup cond.field ev)

-- One round of the loop over `membercounts`.
unfoldable pub count_matches : RoomContext → MemberCountCondition → Bool
count_matches ctx cond = elim cond.op [
  | eq ↦ ctx.member_count == cond.count
  | le ↦ leb ctx.member_count cond.count
  | ge ↦ leb cond.count ctx.member_count
  | lt ↦ ltb ctx.member_count cond.count
  | gt ↦ ltb cond.count ctx.member_count
]

-- The loop over `notification_levels`, with the level of the sender.
sender_passes : RoomContext → ℤ → List String → Bool
sender_passes ctx sender_level levels =
    all (λ n. not (lt_ℤ sender_level (notification_level ctx.power_levels n))) levels

-- `std::get` throws where the sender is no text.
unfoldable pub with_sender : RoomContext → List String → Option PushJsonValue → Outcome Bool
unfolding sender_passes
with_sender ctx levels none = ok false
with_sender ctx levels (some (PushJsonValue.string sender)) =
    ok (sender_passes ctx (user_level ctx.power_levels sender ctx.create) levels)
with_sender ctx levels (some _) = bad_variant_access

unfoldable pub levels_match : RoomContext → Event → List String → Outcome Bool
unfolding with_sender
levels_match ctx ev [] = ok true
levels_match ctx ev (n ∷ levels) = with_sender ctx (n ∷ levels) (lookup "sender" ev)

module _ (re2 : Re2Library) where
  open re2 use {Regex, compile, quote_meta, partial_match, full_match}

  -- `PatternCondition::matches`
  pattern_value : String → Option Regex → Option PushJsonValue → Bool
  pattern_value field pattern none = false
  pattern_value field (some pattern) (some (PushJsonValue.string s)) =
      if str_eq field "content.body" then partial_match s pattern else full_match s pattern
  pattern_value field pattern (some v) = true

  unfoldable pub pattern_matches : PatternCondition re2 → Event → Bool
  unfolding pattern_value
  pattern_matches cond ev = pattern_value cond.field cond.pattern (lookup cond.field ev)

  abbrev no_pattern : Option Regex → Bool
  no_pattern none = true
  no_pattern (some pattern) = false

  -- The test of one related event.
  related_event_matches : RelatedEventCondition re2 → Event → Bool
  unfolding pattern_matches
  related_event_matches cond e =
      str_eq cond.ev_match.field ""
      || no_pattern cond.ev_match.pattern
      || pattern_matches cond.ev_match e

  -- The two loops over the events of one relation type.
  related_type_matches : RelatedEventCondition re2 → RelationType × RelatedEvents → Bool
  unfolding related_event_matches
  related_type_matches cond (rel_type, rel_ev) =
      rel_type_eq cond.rel_type rel_type
      && (any (related_event_matches cond) rel_ev.events
          || (cond.include_fallbacks && any (related_event_matches cond) rel_ev.fallbacks))

  unfoldable pub related_matches :
      List (RelationType × RelatedEvents) → RelatedEventCondition re2 → Bool
  unfolding related_type_matches
  related_matches related cond = any (related_type_matches cond) related

  body_matches : String → Option PushJsonValue → Bool
  body_matches name (some (PushJsonValue.string body)) =
      partial_match body
        (compile (String.◌++◌ "(\\W|^)" (String.◌++◌ (quote_meta name) "(\\W|$)")) false)
  body_matches name _ = false

  -- The test of `contains_display_name`.
  unfoldable pub displayname_matches : RoomContext → Event → Bool
  unfolding body_matches
  displayname_matches ctx ev =
      not (str_eq ctx.user_display_name "")
      && body_matches ctx.user_display_name (lookup "content.body" ev)

  -- `OptimizedRule::matches`
  unfoldable pub matches :
      OptimizedRule re2 → Event → RoomContext → List (RelationType × RelatedEvents) → Outcome Bool
  matches rule ev ctx related =
      if rule.no_mentions_field && has "content.m\\.mentions" ev
      then ok false
      else if not (all (count_matches ctx) rule.membercounts)
      then ok false
      else do
        passes ← levels_match ctx ev rule.notification_levels
        ok (
            passes
            && all (λ cond. pattern_matches cond ev) rule.patterns
            && all (λ cond. is_matches cond ev) rule.is
            && all (λ cond. contains_matches cond ev) rule.contains
            && all (related_matches related) rule.related_event_patterns
            && (not rule.check_displayname || displayname_matches ctx ev))
