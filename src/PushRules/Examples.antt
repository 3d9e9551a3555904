-- ===== src/PushRules/Examples.antt =====
-- The theorems on push rules at a rule set with an override rule, a room rule and an underride rule.
use Prim.Native.String
use mtxclient.Shared.{String, ◌≡◌, refl, false, some, [], ◌∷◌, lookup, insert}
use mtxclient.PowerLevels.{default_levels}
use mtxclient.Samples.{Tree, text, obj, none_left, field, sample_json, sample_re2}
use mtxclient.PushRules.Types.{
  PushCondition, Ruleset, RoomContext, notify, dont_notify, set_tweak_sound, default_condition,
  default_rule,
}
use mtxclient.PushRules.Values.{PushJsonValue, ok}
use mtxclient.PushRules.Flatten.{flatten_event}
use mathlib.Core.List.{filter_map}
use mtxclient.PushRules.Optimized.{matches, count_matches, levels_match}
use mtxclient.PushRules.Build.{
  build, optimize, add_conditions_to_rule, add_all, add_condition, member_count_condition,
  add_sigil_rule,
}
use mtxclient.PushRules.Evaluate.{evaluate, first_match, flatten_related}
use mtxclient.PushRules.Reference.{SenderIsText, actions_for}
use mtxclient.PushRules.Reference.Rules.{evaluate-build}
use mtxclient.PushRules.Reference.Idle.{
  build-without_disabled, evaluate-without_legacy, without_disabled, without_legacy,
}
use mtxclient.PushRules.Flatten.{escape_key, prefix}
use mtxclient.PushRules.Flatten.Keys.{paths_meet}

abbrev event : Tree
event = obj (
    field "type" (text "m.room.message") (
      field "room_id" (text "!room") (
        field "sender" (text "@alice:example.org")
          (field "content" (obj (field "body" (text "hello") none_left)) none_left))))

abbrev ctx : RoomContext
ctx = record {
  user_display_name = "bob";
  member_count = 2;
  power_levels = default_levels;
  create = record { sender = "@alice:example.org"; room_version = "10"; additional_creators = [] };
}

abbrev count_condition : String → PushCondition
count_condition is = record default_condition { kind = "room_member_count"; is = is }

abbrev rules : Ruleset
rules = record {
  override_rules =
      record default_rule {
        rule_id = "big";
        actions = dont_notify ∷ [];
        conditions = count_condition ">10" ∷ [];
      }
      ∷ [];
  content = [];
  room = record default_rule { rule_id = "!room"; actions = notify ∷ [] } ∷ [];
  sender = [];
  underride = [];
}

flat : lookup "content.body" (flatten_event sample_json event) ≡ some (PushJsonValue.string "hello")
unfolding flatten_event lookup insert
flat = refl

-- The override rule does not match in a room of two, so the room rule does.
run : evaluate sample_json sample_re2 (build sample_re2 rules) event ctx [] ≡ ok (notify ∷ [])
unfolding evaluate build first_match matches count_matches levels_match optimize
    add_conditions_to_rule add_all add_condition member_count_condition add_sigil_rule flatten_event
    flatten_related lookup insert filter_map
run = refl

event-SenderIsText : SenderIsText (flatten_event sample_json event)
event-SenderIsText = unfold flatten_event lookup insert in tt

evaluate-build_example :
    evaluate sample_json sample_re2 (build sample_re2 rules) event ctx []
    ≡ ok (
        actions_for sample_re2
          (flatten_event sample_json event)
          ctx
          (flatten_related sample_json [] [])
          rules
          "!room"
          "@alice:example.org")
evaluate-build_example =
    evaluate-build sample_json sample_re2 rules event ctx [] "!room" "@alice:example.org"
      event-SenderIsText refl refl

-- An event that names the users it mentions, and the rules of a server that knows of it.
abbrev mention : Tree
mention = obj (
    field "room_id" (text "!room") (
      field "sender" (text "@alice:example.org") (
        field "content"
          (obj (field "body" (text "bob") (field "m.mentions" (obj none_left) none_left)))
          none_left)))

abbrev mention_rules : Ruleset
mention_rules = record rules {
  override_rules =
      record default_rule { rule_id = ".m.rule.is_user_mention"; enabled = false }
      ∷ record default_rule { rule_id = ".m.rule.roomnotif"; actions = set_tweak_sound "ring" ∷ [] }
      ∷ [];
  underride = record default_rule { rule_id = "off"; enabled = false; actions = notify ∷ [] } ∷ [];
}

mention-SenderIsText : SenderIsText (flatten_event sample_json mention)
mention-SenderIsText = unfold flatten_event lookup insert in tt

evaluate-without_legacy_example :
    evaluate sample_json sample_re2 (build sample_re2 (without_legacy mention_rules)) mention ctx []
    ≡ evaluate sample_json sample_re2 (build sample_re2 mention_rules) mention ctx []
evaluate-without_legacy_example =
    evaluate-without_legacy sample_json sample_re2 mention_rules mention ctx [] "!room"
      "@alice:example.org" mention-SenderIsText refl refl refl
      (unfold flatten_event lookup insert in refl)

build-without_disabled_example :
    build sample_re2 (without_disabled mention_rules) ≡ build sample_re2 mention_rules
build-without_disabled_example = build-without_disabled sample_re2 mention_rules

abbrev mentions_key : String
mentions_key = "m.mentions"

paths_meet_example :
    String.◌++◌ (prefix (escape_key (String.◌++◌ "a" "\\"))) (escape_key "b")
    ≡ escape_key (String.◌++◌ "a" (String.◌++◌ "." "b"))
paths_meet_example = paths_meet "a" "b"
