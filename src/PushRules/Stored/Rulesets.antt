-- ===== src/PushRules/Stored/Rulesets.antt =====
-- A rule set that is written is read back.
use mtxclient.Shared.{Bool, true, ◌≡◌, refl, List, some, Map, lookup, [], ◌∷◌, map, All}
use mtxclient.Libraries.Json.{JsonLibrary, JsonWriter, JsonLaws}
use mtxclient.Json.{get_bool, get_array}
use mtxclient.Json.Laws.{find-object, elements-array, get_bool-flag}
use mtxclient.Json.Fields.{all_of-map, value-object}
use mtxclient.PushRules.Types.{Action, PushRule, Ruleset}
use mtxclient.PushRules.Stored.{
  read_global_ruleset, write_global_ruleset, read_actions, write_actions, read_enabled,
  write_enabled, read_action, write_action, each, read_rule, read_ruleset, write_rule, write_rules,
  write_ruleset,
}
use mtxclient.PushRules.Stored.Roundtrip.{kept_action, read_action-write_action}
use mtxclient.PushRules.Stored.Lists.{actions_same}
use mtxclient.PushRules.Stored.Rules.{
  kept_rule, kept, IsWritable, AreWritable, read_rule-write_rule,
}

module _ (json : JsonLibrary) (writer : JsonWriter json) (laws : JsonLaws json writer) where
  each-write_rules :
      (rules : List PushRule)
      → All IsWritable rules
      → each json (read_rule json) (some (write_rules json writer rules))
        ≡ some (map kept_rule rules)
  each-write_rules rules h =
      rw (elements-array json writer laws (map (write_rule json writer) rules)) (
        all_of-map json writer laws IsWritable (read_rule json) (write_rule json writer) kept_rule
          (λ rule. read_rule-write_rule json writer laws rule) rules h)

  set-read :
      (set : Ruleset)
      → AreWritable set
      → read_ruleset json (write_ruleset json writer set) ≡ some (kept set)
  unfolding read_ruleset write_ruleset lookup
  set-read set (o, c, r, s, u) =
      let fields : Map json.Json =
        ("override", write_rules json writer set.override_rules)
        ∷ ("content", write_rules json writer set.content)
        ∷ ("room", write_rules json writer set.room)
        ∷ ("sender", write_rules json writer set.sender)
        ∷ ("underride", write_rules json writer set.underride)
        ∷ [] in
      rw
        (
          find-object json writer laws "override" fields,
          each-write_rules set.override_rules o,
          find-object json writer laws "content" fields,
          each-write_rules set.content c,
          find-object json writer laws "room" fields,
          each-write_rules set.room r,
          find-object json writer laws "sender" fields,
          each-write_rules set.sender s,
          find-object json writer laws "underride" fields,
          each-write_rules set.underride u,
        )
        refl

  -- The rules that a server is sent are read from what was sent. A rule set whose rules have ids, and whose
  -- conditions hold numbers of 64 bits, is read as the same rules in the same order, but that a
  -- `coalesce` comes back as `notify` and no condition includes fallbacks. So do lists of actions, and
  -- the flag that enables a rule is read as it was.
  pub read_global_ruleset-write_global_ruleset :
      (set : Ruleset) (actions : List Action) (enabled : Bool)
      → AreWritable set
      → (read_global_ruleset json (write_global_ruleset json writer set) ≡ some (kept set))
        × (read_actions json (write_actions json writer actions) ≡ some (map kept_action actions))
        × (read_enabled json (write_enabled json writer enabled) ≡ some enabled)
  unfolding read_global_ruleset write_global_ruleset read_actions write_actions read_enabled
      write_enabled lookup get_array
  read_global_ruleset-write_global_ruleset set actions enabled h =
      let global : Map json.Json = ("global", write_ruleset json writer set) ∷ [] in
      let listed : Map json.Json =
        ("actions", writer.array (map (write_action json writer) actions)) ∷ [] in
      let flags : Map json.Json = ("enabled", writer.flag enabled) ∷ [] in
      (
        rw (find-object json writer laws "global" global) (set-read set h),
        rw
            (
              find-object json writer laws "actions" listed,
              laws.view_array (map (write_action json writer) actions),
            )
            (all_of-map json writer laws (λ a. a ≡ a) (read_action json) (write_action json writer)
              kept_action (λ a e. read_action-write_action json writer laws a) actions
              (actions_same actions)),
        rw (value-object json writer laws (get_bool json) true "enabled" flags)
            (get_bool-flag json writer laws enabled),
      )
