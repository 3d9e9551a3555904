-- ===== src/PushRules/Types.antt =====
-- The data of include/mtx/pushrules.hpp, and the relation types of include/mtx/events/common.hpp.
use mtxclient.Shared.{ℕ, String, Bool, true, false, Option, none, List, [], ℤ, ◌==◌}
use mtxclient.PowerLevels.{PowerLevels, Create}

-- `mtx::common::RelationType`
pub data RelationType : Type 0 where
  annotation reference replace in_reply_to thread unsupported : RelationType

-- The value of the enumerator, by which the type is compared.
abbrev pub index : RelationType → ℕ
index annotation = 0
index reference = 1
index replace = 2
index in_reply_to = 3
index thread = 4
index unsupported = 5

abbrev pub rel_type_eq : RelationType → RelationType → Bool
rel_type_eq s t = index s == index t

-- `non_compound_json_value`
pub data NonCompoundJsonValue : Type 0 where
  string : String → NonCompoundJsonValue
  int64 : ℤ → NonCompoundJsonValue
  boolean : Bool → NonCompoundJsonValue
  nullptr : NonCompoundJsonValue

pub record PushCondition : Type 0 where
  pub kind : String
  pub key : String
  pub pattern : String
  pub value : Option NonCompoundJsonValue
  pub is : String
  pub rel_type : RelationType
  pub include_fallback : Bool

-- `actions::Action`
pub data Action : Type 0 where
  notify dont_notify coalesce : Action
  set_tweak_sound : String → Action
  set_tweak_highlight : Bool → Action

pub record PushRule : Type 0 where
  pub default_rule : Bool
  pub enabled : Bool
  pub actions : List Action
  pub rule_id : String
  pub pattern : String
  pub conditions : List PushCondition

pub record Ruleset : Type 0 where
  pub override_rules : List PushRule
  pub content : List PushRule
  pub room : List PushRule
  pub sender : List PushRule
  pub underride : List PushRule

-- `PushRuleEvaluator::RoomContext`
pub record RoomContext : Type 0 where
  pub user_display_name : String
  pub member_count : ℕ
  pub power_levels : PowerLevels
  pub create : Create

-- `mtx::common::Relation`
pub record Relation : Type 0 where
  pub rel_type : RelationType
  pub event_id : String
  pub key : Option String
  pub is_fallback : Bool

-- A `PushCondition` and a `PushRule` with the default member initialisers.
abbrev pub default_condition : PushCondition
default_condition = record {
  kind = "";
  key = "";
  pattern = "";
  value = none;
  is = "";
  rel_type = unsupported;
  include_fallback = false;
}

abbrev pub default_rule : PushRule
default_rule = record {
  default_rule = false;
  enabled = true;
  actions = [];
  rule_id = "";
  pattern = "";
  conditions = [];
}
