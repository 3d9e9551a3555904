-- ===== src/PushRules/Stored/Rules.antt =====
-- A push rule that is written is read back.
use mtxclient.Shared.{
  String, ◌≡◌, refl, ap, ◌∙◌, not, true, false, none, some, map, [], lookup, str_eq, All,
}
use mtxclient.Libraries.Json.{JsonLibrary, JsonWriter, JsonLaws}
use mtxclient.Json.{find, get_text, get_bool}
use mtxclient.Json.Laws.{find-object}
use mtxclient.Json.Fields.{lookup-filled_field, lookup-given_field}
use mtxclient.PushRules.Types.{PushRule, Ruleset}
use mtxclient.PushRules.Stored.{
  value_at, each, read_action, read_condition, read_rule, write_action, write_condition,
  conditions_field, rule_pattern_fields, rule_id_fields, actions_fields, enabled_fields,
  rule_fields, write_rule,
}
use mtxclient.PushRules.Stored.Roundtrip.{
  ValueFits, kept_action, kept_condition, text-back, read_action-write_action,
}
use mtxclient.PushRules.Stored.Conditions.{read_condition-write_condition}
use mtxclient.PushRules.Stored.Lists.{
  lookup-listed_field, listed-read, object_of-found, flag-read, default_lem, enabled_lem,
  actions_same,
}

-- What is left of a rule that is written.
abbrev pub kept_rule : PushRule → PushRule
kept_rule rule = record rule {
  actions = map kept_action rule.actions;
  conditions = map kept_condition rule.conditions;
}

abbrev pub kept : Ruleset → Ruleset
kept set = record {
  override_rules = map kept_rule set.override_rules;
  content = map kept_rule set.content;
  room = map kept_rule set.room;
  sender = map kept_rule set.sender;
  underride = map kept_rule set.underride;
}

-- A rule has an id, and the numbers of its conditions are of 64 bits.
abbrev pub IsWritable : PushRule → Type 0
IsWritable rule = (str_eq rule.rule_id "" ≡ false) × All (λ c. ValueFits c.value) rule.conditions

abbrev pub AreWritable : Ruleset → Type 0
AreWritable set =
    All IsWritable set.override_rules
    × All IsWritable set.content
    × All IsWritable set.room
    × All IsWritable set.sender
    × All IsWritable set.underride

module _ (json : JsonLibrary) (writer : JsonWriter json) (laws : JsonLaws json writer) where
  module _ (rule : PushRule) where
    conditions-skip :
        (key : String)
        → str_eq "conditions" key ≡ false
        → lookup key (conditions_field json writer rule) ≡ none
    unfolding lookup
    conditions-skip key h =
        lookup-listed_field json writer laws (write_condition json writer) "conditions" key
          rule.conditions [] h

    pattern-skip :
        (key : String)
        → str_eq "pattern" key ≡ false
        → lookup key (rule_pattern_fields json writer rule)
          ≡ lookup key (conditions_field json writer rule)
    pattern-skip key h =
        lookup-filled_field json writer laws "pattern" key rule.pattern
          (conditions_field json writer rule) h

    id-skip :
        (key : String)
        → str_eq "rule_id" key ≡ false
        → lookup key (rule_id_fields json writer rule)
          ≡ lookup key (rule_pattern_fields json writer rule)
    id-skip key h =
        lookup-filled_field json writer laws "rule_id" key rule.rule_id
          (rule_pattern_fields json writer rule) h

    actions-skip :
        (key : String)
        → str_eq "actions" key ≡ false
        → lookup key (actions_fields json writer rule)
          ≡ lookup key (rule_id_fields json writer rule)
    actions-skip key h =
        lookup-listed_field json writer laws (write_action json writer) "actions" key rule.actions
          (rule_id_fields json writer rule) h

    enabled-skip :
        (key : String)
        → str_eq "enabled" key ≡ false
        → lookup key (enabled_fields json writer rule)
          ≡ lookup key (actions_fields json writer rule)
    enabled-skip key h =
        lookup-given_field json writer laws (not rule.enabled) "enabled" key (writer.flag false)
          (actions_fields json writer rule) h

    default-skip :
        (key : String)
        → str_eq "default" key ≡ false
        → lookup key (rule_fields json writer rule) ≡ lookup key (enabled_fields json writer rule)
    default-skip key h =
        lookup-given_field json writer laws rule.default_rule "default" key (writer.flag true)
          (enabled_fields json writer rule) h

    -- A rule with an id is written as an object.
    id-found :
        str_eq rule.rule_id "" ≡ false
        → lookup "rule_id" (rule_fields json writer rule) ≡ some (writer.text rule.rule_id)
    unfolding lookup
    id-found h =
        default-skip "rule_id" refl
        ∙ enabled-skip "rule_id" refl
        ∙ actions-skip "rule_id" refl
        ∙ rw h refl

    rule-object :
        str_eq rule.rule_id "" ≡ false
        → write_rule json writer rule ≡ writer.object (rule_fields json writer rule)
    unfolding write_rule
    rule-object h =
        object_of-found json writer laws "rule_id" (writer.text rule.rule_id)
          (rule_fields json writer rule) (id-found h)

    id-read :
        value_at json (get_text json) "" "rule_id" (writer.object (rule_fields json writer rule))
        ≡ some rule.rule_id
    id-read =
        text-back json writer laws "rule_id" rule.rule_id (rule_fields json writer rule)
          (rule_pattern_fields json writer rule)
          (default-skip "rule_id" refl ∙ enabled-skip "rule_id" refl ∙ actions-skip "rule_id" refl)
          refl (pattern-skip "rule_id" refl ∙ conditions-skip "rule_id" refl)

    default-read :
        value_at json (get_bool json) false "default" (writer.object (rule_fields json writer rule))
        ≡ some rule.default_rule
    default-read =
        flag-read json writer laws rule.default_rule false "default" (rule_fields json writer rule)
          (enabled_fields json writer rule) refl refl
          (enabled-skip "default" refl
            ∙ actions-skip "default" refl
            ∙ id-skip "default" refl
            ∙ pattern-skip "default" refl
            ∙ conditions-skip "default" refl)
        ∙ ap some (default_lem json writer laws rule.default_rule)

    enabled-read :
        value_at json (get_bool json) true "enabled" (writer.object (rule_fields json writer rule))
        ≡ some rule.enabled
    enabled-read =
        flag-read json writer laws (not rule.enabled) true "enabled" (rule_fields json writer rule)
          (actions_fields json writer rule) (default-skip "enabled" refl) refl
          (actions-skip "enabled" refl
            ∙ id-skip "enabled" refl
            ∙ pattern-skip "enabled" refl
            ∙ conditions-skip "enabled" refl)
        ∙ ap some (enabled_lem json writer laws rule.enabled)

    pattern-read :
        value_at json (get_text json) "" "pattern" (writer.object (rule_fields json writer rule))
        ≡ some rule.pattern
    pattern-read =
        text-back json writer laws "pattern" rule.pattern (rule_fields json writer rule)
          (conditions_field json writer rule)
          (default-skip "pattern" refl
            ∙ enabled-skip "pattern" refl
            ∙ actions-skip "pattern" refl
            ∙ id-skip "pattern" refl)
          refl (conditions-skip "pattern" refl)

    actions-read :
        each json
          (read_action json)
          (find json "actions" (writer.object (rule_fields json writer rule)))
        ≡ some (map kept_action rule.actions)
    actions-read =
        rw
          (
            find-object json writer laws "actions" (rule_fields json writer rule),
            default-skip "actions" refl,
            enabled-skip "actions" refl,
          )
          (listed-read json writer laws (λ a. a ≡ a) (read_action json) (write_action json writer)
            kept_action "actions" (rule_id_fields json writer rule)
            (λ a u. read_action-write_action json writer laws a) rule.actions
            (actions_same rule.actions) refl
            (id-skip "actions" refl ∙ pattern-skip "actions" refl ∙ conditions-skip "actions" refl))

    conditions-read :
        All (λ c. ValueFits c.value) rule.conditions
        → each json
            (read_condition json)
            (find json "conditions" (writer.object (rule_fields json writer rule)))
          ≡ some (map kept_condition rule.conditions)
    unfolding lookup
    conditions-read h =
        rw
          (
            find-object json writer laws "conditions" (rule_fields json writer rule),
            default-skip "conditions" refl,
            enabled-skip "conditions" refl,
            actions-skip "conditions" refl,
            id-skip "conditions" refl,
            pattern-skip "conditions" refl,
          )
          (listed-read json writer laws (λ c. ValueFits c.value) (read_condition json)
            (write_condition json writer) kept_condition "conditions" []
            (λ c fits. read_condition-write_condition json writer laws c fits) rule.conditions h
            refl refl)

    -- A rule with an id is read as what is kept of it.
    pub read_rule-write_rule :
        IsWritable rule → read_rule json (write_rule json writer rule) ≡ some (kept_rule rule)
    unfolding read_rule
    read_rule-write_rule (named, fit) =
        rw
          (
            rule-object named,
            id-read,
            default-read,
            enabled-read,
            actions-read,
            pattern-read,
            conditions-read fit,
          )
          refl
