-- ===== src/PushRules/Stored/Examples.antt =====
-- The theorem at a rule set with a rule that coalesces.
use mtxclient.Shared.{◌≡◌, refl, false, some, map, [], ◌∷◌, lookup, arith, pos}
use mtxclient.Samples.{sample_json, sample_writer, sample_writer-laws, obj, field, none_left, text}
use mtxclient.Json.{find, get_text, get_bool}
use mtxclient.PushRules.Types.{
  NonCompoundJsonValue, Action, PushRule, Ruleset, default_rule, default_condition,
}
use mtxclient.PushRules.Stored.{
  read_action, read_global_ruleset, write_global_ruleset, read_actions, write_actions, read_enabled,
  write_enabled,
}
use mtxclient.PushRules.Stored.Roundtrip.{kept_action}
use mtxclient.PushRules.Stored.Rules.{kept}
use mtxclient.PushRules.Stored.Rulesets.{read_global_ruleset-write_global_ruleset}

abbrev rule : PushRule
rule = record default_rule {
  rule_id = ".m.rule.reaction";
  actions = Action.coalesce ∷ (Action.set_tweak_highlight false ∷ []);
  conditions =
      record default_condition {
        kind = "event_property_is";
        key = "content.n";
        value = some (NonCompoundJsonValue.int64 (pos 7));
      }
      ∷ [];
}

abbrev set : Ruleset
set = record { override_rules = rule ∷ []; content = []; room = []; sender = []; underride = [] }

-- An unknown text and an unknown tweak are `notify`.
unknown_run :
    (read_action sample_json (text "wave") ≡ some Action.notify)
    × (read_action sample_json (obj (field "set_tweak" (text "colour") none_left))
        ≡ some Action.notify)
    × (read_action sample_json (obj (field "set_tweak" (text "sound") none_left))
        ≡ some (Action.set_tweak_sound "default"))
unfolding read_action find get_text get_bool lookup
unknown_run = (refl, refl, refl)

read_global_ruleset-write_global_ruleset_example :
    (read_global_ruleset sample_json (write_global_ruleset sample_json sample_writer set)
      ≡ some (kept set))
    × (read_actions sample_json (write_actions sample_json sample_writer (Action.coalesce ∷ []))
        ≡ some (map kept_action (Action.coalesce ∷ [])))
    × (read_enabled sample_json (write_enabled sample_json sample_writer false) ≡ some false)
read_global_ruleset-write_global_ruleset_example =
    read_global_ruleset-write_global_ruleset sample_json sample_writer sample_writer-laws set
      (Action.coalesce ∷ []) false (((refl, (omega arith, tt)), tt), tt, tt, tt, tt)
