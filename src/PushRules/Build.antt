-- ===== src/PushRules/Build.antt =====
-- The constructor of `PushRuleEvaluator` in lib/structs/pushrules.cpp.
use Prim.Native.Char.{Char, code}
use Prim.Native.String
use Prim.Native.String.{[], ◌∷◌}
use mathlib.Core.List.{List, ◌++◌, filter_map, foldl}
use text.Mathlib.Text.{starts_with}
use mtxclient.Shared.{
  ℕ, zero, suc, ◌+◌, ◌-◌, ◌*◌, ◌^◌, String, Bool, true, false, not, ◌&&◌, ◌||◌, Option, none, some,
  any, ltb, leb, str_eq, if◌then◌else◌, Map, insert,
}
use mtxclient.Libraries.Re2.{Re2Library}
use mtxclient.PushRules.Types.{
  PushCondition, PushRule, Ruleset, unsupported, rel_type_eq, NonCompoundJsonValue,
  default_condition,
}
use mtxclient.PushRules.Optimized.{
  OptimizedRule, empty_rule, RelatedEventCondition, MemberCountCondition, eq, lt, le, ge, gt,
}

-- `substr(n)`
abbrev pub drop : ℕ → String → String
drop zero s = s
drop (suc n) [] = []
drop (suc n) (c ∷ s) = drop n s

abbrev pub is_digit : Char → Bool
is_digit c = leb b'0' (code c) && leb (code c) b'9'

-- The value of the digits at the front, after the value of those before them.
unfoldable pub digits_value : ℕ → String → ℕ
digits_value n [] = n
digits_value n (c ∷ s) =
    let more = digits_value (n * 10 + (code c - 48)) s in if is_digit c then more else n

-- `std::from_chars` into a `std::size_t` that is 0: it stays 0 where there is no digit or no room.
unfoldable pub from_chars : String → ℕ
unfolding digits_value
from_chars s = let n = digits_value 0 s in if ltb n (2 ^ 64) then n else 0

-- The prefixes of `is`, and the number behind them.
unfoldable pub member_count_condition : String → MemberCountCondition
unfolding from_chars
member_count_condition is =
    if starts_with is "=="
    then record { op = eq; count = from_chars (drop 2 is) }
    else if starts_with is ">="
    then record { op = ge; count = from_chars (drop 2 is) }
    else if starts_with is "<="
    then record { op = le; count = from_chars (drop 2 is) }
    else if starts_with is "<"
    then record { op = lt; count = from_chars (drop 1 is) }
    else if starts_with is ">"
    then record { op = gt; count = from_chars (drop 1 is) }
    else record { op = eq; count = from_chars is }

abbrev pub has_value : Option NonCompoundJsonValue → Bool
has_value none = false
has_value (some v) = true

-- The rules that a server with mentions has replaced.
abbrev pub is_legacy : String → Bool
is_legacy rule_id =
    str_eq rule_id ".m.rule.contains_display_name"
    || str_eq rule_id ".m.rule.roomnotif"
    || str_eq rule_id ".m.rule.contains_user_name"

abbrev pub server_supports_mentions : Ruleset → Bool
server_supports_mentions rules =
    any (λ r. str_eq r.rule_id ".m.rule.is_user_mention") rules.override_rules

-- The condition that stands for the pattern of a content rule.
abbrev pub body_condition : String → PushCondition
body_condition pattern = record default_condition {
  kind = "event_match";
  key = "content.body";
  pattern = pattern;
}

module _ (re2 : Re2Library) where
  open re2 use {Regex, compile, quote_meta, global_replace}

  unfoldable pub construct_re_from_pattern : String → String → Regex
  construct_re_from_pattern pat field =
      let quoted = quote_meta pat in
      let stars = global_replace quoted (compile "\\*" true) ".*" in
      let pat' = global_replace stars (compile "\\?" true) "." in
      if str_eq field "content.body"
      then compile (String.◌++◌ "(\\W|^)" (String.◌++◌ pat' "(\\W|$)")) false
      else compile pat' false

  add_is : OptimizedRule re2 → String → Option NonCompoundJsonValue → Option (OptimizedRule re2)
  add_is rule key none = none
  add_is rule key (some v) =
      some (record rule { is = rule.is ++ List.◌∷◌ (record { field = key; value = v }) List.[] })

  add_contains :
      OptimizedRule re2 → String → Option NonCompoundJsonValue → Option (OptimizedRule re2)
  add_contains rule key none = none
  add_contains rule key (some v) = some (record rule {
    contains = rule.contains ++ List.◌∷◌ (record { field = key; value = v }) List.[];
  })

  -- The pattern of a related event is set where there are a key and a pattern.
  unfoldable pub related_condition : PushCondition → RelatedEventCondition re2
  related_condition cond = record {
    rel_type = cond.rel_type;
    include_fallbacks = cond.include_fallback;
    ev_match =
        if not (str_eq cond.key "") && not (str_eq cond.pattern "")
        then record {
          field = cond.key;
          pattern = some (construct_re_from_pattern cond.pattern cond.key);
        }
        else record { field = ""; pattern = none };
  }

  -- One round of the loop over the conditions; `none` is `return false`.
  unfoldable pub add_condition : OptimizedRule re2 → PushCondition → Option (OptimizedRule re2)
  unfolding add_is add_contains
  add_condition rule cond =
      if str_eq cond.kind "event_match"
      then some (record rule {
        patterns =
            rule.patterns
            ++ List.◌∷◌
                (record {
                  field = cond.key;
                  pattern = some (construct_re_from_pattern cond.pattern cond.key);
                })
                List.[];
      })
      else if str_eq cond.kind "event_property_is" && has_value cond.value
      then add_is rule cond.key cond.value
      else if str_eq cond.kind "event_property_contains" && has_value cond.value
      then add_contains rule cond.key cond.value
      else if str_eq cond.kind "im.nheko.msc3664.related_event_match"
      then (if not (rel_type_eq cond.rel_type unsupported)
          then some (record rule {
            related_event_patterns =
                rule.related_event_patterns ++ List.◌∷◌ (related_condition cond) List.[];
          })
          else none)
      else if str_eq cond.kind "contains_display_name"
      then some (record rule { check_displayname = true })
      else if str_eq cond.kind "room_member_count"
      then some (record rule {
        membercounts = rule.membercounts ++ List.◌∷◌ (member_count_condition cond.is) List.[];
      })
      else if str_eq cond.kind "sender_notification_permission"
      then some (record rule {
        notification_levels = rule.notification_levels ++ List.◌∷◌ cond.key List.[];
      })
      else none

  unfoldable pub add_all : OptimizedRule re2 → List PushCondition → Option (OptimizedRule re2)
  add_all rule List.[] = some rule
  add_all rule (List.◌∷◌ cond conditions) = elim (add_condition rule cond) [
    | none ↦ none
    | some rule' ↦ add_all rule' conditions
  ]

  -- The lambda `add_conditions_to_rule`.
  unfoldable pub add_conditions_to_rule :
      Bool → OptimizedRule re2 → List PushCondition → String → Option (OptimizedRule re2)
  unfolding add_all
  add_conditions_to_rule supports rule conditions rule_id =
      add_all
        (if supports && is_legacy rule_id then record rule { no_mentions_field = true } else rule)
        conditions

  -- A round of the loops over `override_` and `underride`; `none` is `continue`.
  unfoldable pub optimize : Bool → PushRule → Option (OptimizedRule re2)
  optimize supports rule =
      if not rule.enabled
      then none
      else add_conditions_to_rule supports (record (empty_rule re2) { actions = rule.actions })
          rule.conditions rule.rule_id

  -- A round of the loop over `content`.
  unfoldable pub optimize_content : Bool → PushRule → Option (OptimizedRule re2)
  optimize_content supports rule =
      if not rule.enabled
      then none
      else if str_eq rule.pattern ""
      then none
      else add_conditions_to_rule supports (record (empty_rule re2) { actions = rule.actions })
          (List.◌∷◌ (body_condition rule.pattern) List.[]) rule.rule_id

  -- A round of the loops over `room` and `sender`, whose rules have a sigil.
  unfoldable pub add_sigil_rule :
      String → Map (OptimizedRule re2) → PushRule → Map (OptimizedRule re2)
  add_sigil_rule sigil rules rule =
      if not rule.enabled
      then rules
      else if not (starts_with rule.rule_id sigil)
      then rules
      else insert rule.rule_id (record (empty_rule re2) { actions = rule.actions }) rules

  -- `OptimizedRules`
  pub record OptimizedRules : Type 0 where
    pub override_rules : List (OptimizedRule re2)
    pub room : Map (OptimizedRule re2)
    pub sender : Map (OptimizedRule re2)
    pub content : List (OptimizedRule re2)
    pub underride : List (OptimizedRule re2)

  -- `PushRuleEvaluator::PushRuleEvaluator`
  unfoldable pub build : Ruleset → OptimizedRules
  build rules =
      let supports = server_supports_mentions rules in
      record {
        override_rules = filter_map (optimize supports) rules.override_rules;
        underride = filter_map (optimize supports) rules.underride;
        room = foldl (add_sigil_rule "!") List.[] rules.room;
        sender = foldl (add_sigil_rule "@") List.[] rules.sender;
        content = filter_map (optimize_content supports) rules.content;
      }
