-- ===== src/RoomAccess.antt =====
-- lib/structs/events/join_rules.cpp, guest_access.cpp, history_visibility.cpp and server_acl.cpp with their
-- headers in include/mtx/events: who may enter and read a room.
pub mod Roundtrip
mod Examples
use mtxclient.Shared.{
  String, Bool, true, Option, none, some, List, [], ◌∷◌, Map, map, str_eq, if◌then◌else◌,
}
use mtxclient.Libraries.Json.{JsonLibrary, JsonWriter}
use mtxclient.Json.{find, get_text, get_bool, get_array, get_texts, value_in, all_of, ◌>>=◌}

pub data JoinRule : Type 0 where
  public_rule invite_rule knock_rule private_rule restricted_rule knock_restricted_rule : JoinRule

pub data JoinAllowanceType : Type 0 where
  room_membership unknown_type : JoinAllowanceType

pub data AccessState : Type 0 where
  can_join forbidden : AccessState

pub data Visibility : Type 0 where
  world_readable shared invited joined : Visibility

pub record JoinAllowance : Type 0 where
  pub allowance_type : JoinAllowanceType
  pub room_id : String

pub record JoinRules : Type 0 where
  pub join_rule : JoinRule
  pub allow : List JoinAllowance

pub record ServerAcl : Type 0 where
  pub allow : List String
  pub deny : List String
  pub allow_ip_literals : Bool

unfoldable pub join_rule_to_string : JoinRule → String
join_rule_to_string public_rule = "public"
join_rule_to_string invite_rule = "invite"
join_rule_to_string knock_rule = "knock"
join_rule_to_string private_rule = "private"
join_rule_to_string restricted_rule = "restricted"
join_rule_to_string knock_restricted_rule = "knock_restricted"

unfoldable pub string_to_join_rule : String → JoinRule
string_to_join_rule rule =
    if str_eq rule "public"
    then public_rule
    else if str_eq rule "invite"
    then invite_rule
    else if str_eq rule "knock"
    then knock_rule
    else if str_eq rule "restricted"
    then restricted_rule
    else if str_eq rule "knock_restricted"
    then knock_restricted_rule
    else private_rule

unfoldable pub access_state_to_string : AccessState → String
access_state_to_string can_join = "can_join"
access_state_to_string forbidden = "forbidden"

unfoldable pub string_to_access_state : String → AccessState
string_to_access_state state = if str_eq state "can_join" then can_join else forbidden

unfoldable pub visibility_to_string : Visibility → String
visibility_to_string world_readable = "world_readable"
visibility_to_string invited = "invited"
visibility_to_string shared = "shared"
visibility_to_string joined = "joined"

unfoldable pub string_to_visibility : String → Visibility
string_to_visibility rule =
    if str_eq rule "world_readable"
    then world_readable
    else if str_eq rule "invited"
    then invited
    else if str_eq rule "shared"
    then shared
    else joined

module _ (json : JsonLibrary) where
  abbrev pub text_value : String → json.Json → Option String
  text_value key obj = value_in json (get_text json) "" key (json.view obj)

  -- `from_json` of a `JoinAllowance`
  unfoldable pub read_allowance : json.Json → Option JoinAllowance
  read_allowance obj = do
    kind ← text_value "type" obj
    room_id ← text_value "room_id" obj
    some (record {
      allowance_type = if str_eq kind "m.room_membership" then room_membership else unknown_type;
      room_id = room_id;
    })

  abbrev pub allow_in : Option json.Json → Option (List JoinAllowance)
  allow_in none = some []
  allow_in (some v) = get_array json v >>= all_of json read_allowance

  -- `from_json` of `JoinRules`
  unfoldable pub read_join_rules : json.Json → Option JoinRules
  read_join_rules obj = do
    rule ← text_value "join_rule" obj
    allow ← allow_in (find json "allow" obj)
    some (record { join_rule = string_to_join_rule rule; allow = allow })

  -- `from_json` of `GuestAccess` and of `HistoryVisibility`, which have one field
  unfoldable pub read_guest_access : json.Json → Option AccessState
  read_guest_access obj = do
    state ← text_value "guest_access" obj
    some (string_to_access_state state)

  unfoldable pub read_history_visibility : json.Json → Option Visibility
  read_history_visibility obj = do
    rule ← text_value "history_visibility" obj
    some (string_to_visibility rule)

  -- `from_json` of a `ServerAcl`
  unfoldable pub read_server_acl : json.Json → Option ServerAcl
  read_server_acl obj = do
    allow ← value_in json (get_texts json) [] "allow" (json.view obj)
    deny ← value_in json (get_texts json) [] "deny" (json.view obj)
    allow_ip_literals ← value_in json (get_bool json) true "allow_ip_literals" (json.view obj)
    some (record { allow = allow; deny = deny; allow_ip_literals = allow_ip_literals })

module _ (json : JsonLibrary) (writer : JsonWriter json) where
  abbrev pub allowance_fields : JoinAllowanceType → String → Map json.Json
  allowance_fields room_membership room_id =
      ("type", writer.text "m.room_membership") ∷ ("room_id", writer.text room_id) ∷ []
  allowance_fields unknown_type room_id = []

  -- `to_json` of a `JoinAllowance`
  unfoldable pub write_allowance : JoinAllowance → json.Json
  write_allowance a = writer.object (allowance_fields a.allowance_type a.room_id)

  abbrev pub allow_fields : List JoinAllowance → Map json.Json
  allow_fields [] = []
  allow_fields (a ∷ allow) = ("allow", writer.array (map write_allowance (a ∷ allow))) ∷ []

  abbrev pub join_rule_fields : JoinRules → Map json.Json
  join_rule_fields rules =
      ("join_rule", writer.text (join_rule_to_string rules.join_rule)) ∷ allow_fields rules.allow

  -- `to_json` of `JoinRules`
  unfoldable pub write_join_rules : JoinRules → json.Json
  write_join_rules rules = writer.object (join_rule_fields rules)

  -- `to_json` of `GuestAccess` and of `HistoryVisibility`
  unfoldable pub write_guest_access : AccessState → json.Json
  write_guest_access state =
      writer.object (("guest_access", writer.text (access_state_to_string state)) ∷ [])

  unfoldable pub write_history_visibility : Visibility → json.Json
  write_history_visibility rule =
      writer.object (("history_visibility", writer.text (visibility_to_string rule)) ∷ [])

  abbrev pub acl_fields : ServerAcl → Map json.Json
  acl_fields acl =
      ("allow", writer.array (map writer.text acl.allow))
      ∷ ("deny", writer.array (map writer.text acl.deny))
      ∷ ("allow_ip_literals", writer.flag acl.allow_ip_literals)
      ∷ []

  -- `to_json` of a `ServerAcl`
  unfoldable pub write_server_acl : ServerAcl → json.Json
  write_server_acl acl = writer.object (acl_fields acl)
