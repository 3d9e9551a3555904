-- ===== src/PushRules/Stored.antt =====
-- lib/structs/pushrules.cpp: `from_json` and `to_json` of the push rules. `none` stands for an exception, and
-- for the assertion of `operator[]` at a key that an object lacks.
pub mod Roundtrip
pub mod Conditions
pub mod Lists
pub mod Rules
pub mod Rulesets
mod Examples
use mtxclient.Shared.{
  String, Bool, true, false, not, Option, none, some, List, [], ◌∷◌, Map, map, str_eq,
  if◌then◌else◌,
}
use mtxclient.Libraries.Json.{JsonLibrary, JsonWriter, View}
use mtxclient.Json.{
  find, at_key, contains, is_text, get_text, get_bool, get_array, value_in, read_field, all_of,
  elements, ◌>>=◌,
}
use mtxclient.Json.Fields.{filled_field, given_field, some_field}
use mtxclient.PushRules.Types.{
  NonCompoundJsonValue, PushCondition, Action, PushRule, Ruleset, unsupported, rel_type_eq,
}
use mtxclient.PushRules.Values.{to_non_compound_json_value}
use mtxclient.Relations.{read_relation_type}
use mtxclient.Relations.Write.{relation_name}

module _ (json : JsonLibrary) where
  abbrev pub value_at {ℓ} :
      {A : Type ℓ} → (json.Json → Option A) → A → String → json.Json → Option A
  value_at get default key obj = value_in json get default key (json.view obj)

  -- `if (obj.contains("value")) if (auto val = to_non_compound_json_value(obj.at("value")))`
  abbrev pub value_of : Option json.Json → Option NonCompoundJsonValue
  value_of none = none
  value_of (some v) = to_non_compound_json_value json v

  -- `from_json` of a `PushCondition`
  unfoldable pub read_condition : json.Json → Option PushCondition
  read_condition obj = do
    v ← at_key json "kind" obj
    kind ← get_text json v
    key ← value_at (get_text json) "" "key" obj
    pattern ← value_at (get_text json) "" "pattern" obj
    is ← value_at (get_text json) "" "is" obj
    rel_type ← value_at (read_relation_type json) unsupported "rel_type" obj
    include_fallback ← value_at (get_bool json) false "include_fallback" obj
    some (record {
      kind = kind;
      key = key;
      pattern = pattern;
      value = value_of (find json "value" obj);
      is = is;
      rel_type = rel_type;
      include_fallback = include_fallback;
    })

  abbrev text_action : String → Action
  text_action s =
      if str_eq s "notify"
      then Action.notify
      else if str_eq s "dont_notify"
      then Action.dont_notify
      else Action.notify

  abbrev tweak_action : json.Json → json.Json → Option Action
  tweak_action obj tweak =
      if is_text json "sound" tweak
      then (value_at (get_text json) "default" "value" obj >>= λ s. some (Action.set_tweak_sound s))
      else if is_text json "highlight" tweak
      then (value_at (get_bool json) true "value" obj >>= λ b. some (Action.set_tweak_highlight b))
      else some Action.notify

  abbrev action_at : json.Json → Option String → Option json.Json → Option Action
  action_at obj (some s) tweak = some (text_action s)
  action_at obj none none = some Action.notify
  action_at obj none (some tweak) = tweak_action obj tweak

  -- `from_json` of an `Action`, which is `notify` before it.
  unfoldable pub read_action : json.Json → Option Action
  read_action obj = action_at obj (get_text json obj) (find json "set_tweak" obj)

  -- `if (obj.contains(key)) for (const auto &e : obj[key]) items.push_back(e.get<A>());`
  abbrev pub each {ℓ} : {A : Type ℓ} → (json.Json → Option A) → Option json.Json → Option (List A)
  each get none = some []
  each get (some v) = all_of json get (elements json v)

  -- `from_json` of a `PushRule`
  unfoldable pub read_rule : json.Json → Option PushRule
  read_rule obj = do
    rule_id ← value_at (get_text json) "" "rule_id" obj
    default_rule ← value_at (get_bool json) false "default" obj
    enabled ← value_at (get_bool json) true "enabled" obj
    actions ← each read_action (find json "actions" obj)
    pattern ← value_at (get_text json) "" "pattern" obj
    conditions ← each read_condition (find json "conditions" obj)
    some (record {
      default_rule = default_rule;
      enabled = enabled;
      actions = actions;
      rule_id = rule_id;
      pattern = pattern;
      conditions = conditions;
    })

  -- `from_json` of a `Ruleset`
  unfoldable pub read_ruleset : json.Json → Option Ruleset
  read_ruleset obj = do
    override_rules ← each read_rule (find json "override" obj)
    content ← each read_rule (find json "content" obj)
    room ← each read_rule (find json "room" obj)
    sender ← each read_rule (find json "sender" obj)
    underride ← each read_rule (find json "underride" obj)
    some (record {
      override_rules = override_rules;
      content = content;
      room = room;
      sender = sender;
      underride = underride;
    })

  -- `from_json` of a `GlobalRuleset`, of an `Enabled` and of `Actions`
  unfoldable pub read_global_ruleset : json.Json → Option Ruleset
  read_global_ruleset obj = at_key json "global" obj >>= read_ruleset

  unfoldable pub read_enabled : json.Json → Option Bool
  read_enabled obj = value_at (get_bool json) true "enabled" obj

  unfoldable pub read_actions : json.Json → Option (List Action)
  read_actions obj = do
    v ← at_key json "actions" obj
    items ← get_array json v
    all_of json read_action items

module _ (json : JsonLibrary) (writer : JsonWriter json) where
  abbrev pub write_value : NonCompoundJsonValue → json.Json
  write_value (NonCompoundJsonValue.string s) = writer.text s
  write_value (NonCompoundJsonValue.int64 n) = writer.int n
  write_value (NonCompoundJsonValue.boolean b) = writer.flag b
  write_value NonCompoundJsonValue.nullptr = writer.null

  abbrev pub value_fields : PushCondition → Map json.Json
  value_fields c = some_field json writer write_value "value" c.value []

  abbrev pub rel_type_fields : PushCondition → Map json.Json
  rel_type_fields c =
      given_field json writer (not (rel_type_eq c.rel_type unsupported)) "rel_type"
        (writer.text (relation_name c.rel_type)) (value_fields c)

  abbrev pub is_fields : PushCondition → Map json.Json
  is_fields c = filled_field json writer "is" c.is (rel_type_fields c)

  abbrev pub pattern_fields : PushCondition → Map json.Json
  pattern_fields c = filled_field json writer "pattern" c.pattern (is_fields c)

  abbrev pub condition_fields : PushCondition → Map json.Json
  condition_fields c =
      ("kind", writer.text c.kind) ∷ filled_field json writer "key" c.key (pattern_fields c)

  -- `to_json` of a `PushCondition`
  unfoldable pub write_condition : PushCondition → json.Json
  write_condition c = writer.object (condition_fields c)

  -- `to_json` of an `Action`
  unfoldable pub write_action : Action → json.Json
  write_action Action.notify = writer.text "notify"
  write_action Action.dont_notify = writer.text "dont_notify"
  write_action Action.coalesce = writer.null
  write_action (Action.set_tweak_sound s) =
      writer.object (("set_tweak", writer.text "sound") ∷ ("value", writer.text s) ∷ [])
  write_action (Action.set_tweak_highlight b) = writer.object (
      ("set_tweak", writer.text "highlight")
      ∷ given_field json writer (not b) "value" (writer.flag false) [])

  abbrev pub listed_field {ℓ} :
      {A : Type ℓ} → (A → json.Json) → String → List A → Map json.Json → Map json.Json
  listed_field to_json key [] rest = rest
  listed_field to_json key (a ∷ items) rest = (key, writer.array (map to_json (a ∷ items))) ∷ rest

  abbrev pub conditions_field : PushRule → Map json.Json
  conditions_field rule = listed_field write_condition "conditions" rule.conditions []

  abbrev pub rule_pattern_fields : PushRule → Map json.Json
  rule_pattern_fields rule = filled_field json writer "pattern" rule.pattern (conditions_field rule)

  abbrev pub rule_id_fields : PushRule → Map json.Json
  rule_id_fields rule = filled_field json writer "rule_id" rule.rule_id (rule_pattern_fields rule)

  abbrev pub actions_fields : PushRule → Map json.Json
  actions_fields rule = listed_field write_action "actions" rule.actions (rule_id_fields rule)

  abbrev pub enabled_fields : PushRule → Map json.Json
  enabled_fields rule =
      given_field json writer (not rule.enabled) "enabled" (writer.flag false) (actions_fields rule)

  abbrev pub rule_fields : PushRule → Map json.Json
  rule_fields rule =
      given_field json writer rule.default_rule "default" (writer.flag true) (enabled_fields rule)

  -- A JSON value that nothing is assigned to stays null.
  abbrev pub object_of : Map json.Json → json.Json
  object_of [] = writer.null
  object_of (field ∷ fields) = writer.object (field ∷ fields)

  -- `to_json` of a `PushRule`
  unfoldable pub write_rule : PushRule → json.Json
  write_rule rule = object_of (rule_fields rule)

  abbrev pub write_rules : List PushRule → json.Json
  write_rules rules = writer.array (map write_rule rules)

  -- `to_json` of a `Ruleset`
  unfoldable pub write_ruleset : Ruleset → json.Json
  write_ruleset set = writer.object (
      ("override", write_rules set.override_rules)
      ∷ ("content", write_rules set.content)
      ∷ ("room", write_rules set.room)
      ∷ ("sender", write_rules set.sender)
      ∷ ("underride", write_rules set.underride)
      ∷ [])

  -- `to_json` of a `GlobalRuleset`, of an `Enabled` and of `Actions`
  unfoldable pub write_global_ruleset : Ruleset → json.Json
  write_global_ruleset set = writer.object (("global", write_ruleset set) ∷ [])

  unfoldable pub write_enabled : Bool → json.Json
  write_enabled enabled = writer.object (("enabled", writer.flag enabled) ∷ [])

  unfoldable pub write_actions : List Action → json.Json
  write_actions actions = writer.object (("actions", writer.array (map write_action actions)) ∷ [])
