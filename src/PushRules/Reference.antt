-- ===== src/PushRules/Reference.antt =====
-- What a set of push rules means, rule by rule and condition by condition, with nothing prepared: the
-- specification of the evaluator.
pub mod Conditions
pub mod Rules
pub mod Idle
use text.Mathlib.Text.{starts_with}
use mtxclient.Shared.{
  String, Bool, true, false, not, ◌&&◌, Option, none, some, List, [], ◌∷◌, all, str_eq,
  if◌then◌else◌, lookup, lt_ℤ,
}
use mtxclient.PowerLevels.{user_level, notification_level}
use mtxclient.Libraries.Re2.{Re2Library}
use mtxclient.PushRules.Types.{
  PushCondition, PushRule, Ruleset, RelationType, unsupported, rel_type_eq, NonCompoundJsonValue,
  Action, RoomContext,
}
use mtxclient.PushRules.Values.{PushJsonValue, Event, RelatedEvents}
use mtxclient.PushRules.Optimized.{
  pattern_matches, is_matches, contains_matches, count_matches, related_matches,
  displayname_matches, has,
}
use mtxclient.PushRules.Build.{
  member_count_condition, construct_re_from_pattern, related_condition, is_legacy,
  server_supports_mentions, body_condition,
}

-- The sender of the event is a text, or there is none.
abbrev pub TextOrAbsent : Option PushJsonValue → Type 0
TextOrAbsent none = Unit
TextOrAbsent (some (PushJsonValue.string s)) = Unit
TextOrAbsent (some _) = ⊥

abbrev pub SenderIsText : Event → Type 0
SenderIsText ev = TextOrAbsent (lookup "sender" ev)

abbrev pub level_suffices : RoomContext → String → Option PushJsonValue → Bool
level_suffices ctx key (some (PushJsonValue.string sender)) =
    not (
      lt_ℤ (user_level ctx.power_levels sender ctx.create)
        (notification_level ctx.power_levels key))
level_suffices ctx key _ = false

-- The sender may use the notification `key`.
abbrev pub sender_allows : RoomContext → Event → String → Bool
sender_allows ctx ev key = level_suffices ctx key (lookup "sender" ev)

-- A legacy rule is off where the server supports mentions and the event has a list of them.
abbrev pub is_replaced : Event → Bool → String → Bool
is_replaced ev supports rule_id = (supports && is_legacy rule_id) && has "content.m\\.mentions" ev

-- A room or sender rule for `id`.
abbrev pub is_for : String → String → PushRule → Bool
is_for sigil id rule = rule.enabled && starts_with rule.rule_id sigil && str_eq rule.rule_id id

abbrev pub or : Option (List Action) → Option (List Action) → Option (List Action)
or (some actions) later = some actions
or none later = later

abbrev pub or_nothing : Option (List Action) → List Action
or_nothing none = []
or_nothing (some actions) = actions

-- The actions of the first rule that applies.
unfoldable pub first_actions : (PushRule → Bool) → List PushRule → Option (List Action)
first_actions applies_to [] = none
first_actions applies_to (rule ∷ rules) =
    if applies_to rule then some rule.actions else first_actions applies_to rules

-- The actions of the last enabled room or sender rule for `id`.
unfoldable pub last_actions : String → String → List PushRule → Option (List Action)
last_actions sigil id [] = none
last_actions sigil id (rule ∷ rules) =
    or (last_actions sigil id rules) (if is_for sigil id rule then some rule.actions else none)

module _ (re2 : Re2Library) (ev : Event) (ctx : RoomContext)
    (related : List (RelationType × RelatedEvents)) where
  abbrev property_is : String → Option NonCompoundJsonValue → Bool
  property_is key none = false
  property_is key (some v) = is_matches (record { field = key; value = v }) ev

  abbrev property_contains : String → Option NonCompoundJsonValue → Bool
  property_contains key none = false
  property_contains key (some v) = contains_matches (record { field = key; value = v }) ev

  -- One condition holds of the event. A condition of an unknown kind does not.
  unfoldable pub condition_holds : PushCondition → Bool
  condition_holds cond =
      if str_eq cond.kind "event_match"
      then pattern_matches re2
          (record {
            field = cond.key;
            pattern = some (construct_re_from_pattern re2 cond.pattern cond.key);
          })
          ev
      else if str_eq cond.kind "event_property_is"
      then property_is cond.key cond.value
      else if str_eq cond.kind "event_property_contains"
      then property_contains cond.key cond.value
      else if str_eq cond.kind "im.nheko.msc3664.related_event_match"
      then not (rel_type_eq cond.rel_type unsupported)
        && related_matches re2 related (related_condition re2 cond)
      else if str_eq cond.kind "contains_display_name"
      then displayname_matches re2 ctx ev
      else if str_eq cond.kind "room_member_count"
      then count_matches ctx (member_count_condition cond.is)
      else if str_eq cond.kind "sender_notification_permission"
      then sender_allows ctx ev cond.key
      else false

  -- An override or underride rule applies.
  abbrev pub applies : Bool → PushRule → Bool
  applies supports rule =
      rule.enabled
      && not (is_replaced ev supports rule.rule_id)
      && all condition_holds rule.conditions

  -- A content rule applies.
  abbrev pub content_applies : Bool → PushRule → Bool
  content_applies supports rule =
      rule.enabled
      && not (str_eq rule.pattern "")
      && not (is_replaced ev supports rule.rule_id)
      && condition_holds (body_condition rule.pattern)

  -- The actions of the whole set: override, content, room, sender and underride rules, in this order.
  unfoldable pub actions_for : Ruleset → String → String → List Action
  unfolding first_actions last_actions
  actions_for rules room_id sender =
      let supports = server_supports_mentions rules in
      or_nothing (
        or (first_actions (applies supports) rules.override_rules) (
          or (first_actions (content_applies supports) rules.content) (
            or (last_actions "!" room_id rules.room) (
              or (last_actions "@" sender rules.sender)
                (first_actions (applies supports) rules.underride)))))
