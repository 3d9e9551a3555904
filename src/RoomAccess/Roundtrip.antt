-- ===== src/RoomAccess/Roundtrip.antt =====
-- The rules of who may enter and read a room, written and read back.
use mtxclient.Shared.{String, ◌≡◌, refl, true, none, some, List, [], ◌∷◌, Map, map, lookup, All}
use mtxclient.Libraries.Json.{JsonLibrary, JsonWriter, JsonLaws}
use mtxclient.Json.{get_text, get_bool, get_array, get_texts}
use mtxclient.Json.Laws.{find-object, get_text-text, get_bool-flag, get_texts-array}
use mtxclient.Json.Fields.{value-object, all_of-map}
use mtxclient.RoomAccess.{
  JoinRule, public_rule, invite_rule, knock_rule, private_rule, restricted_rule,
  knock_restricted_rule, JoinAllowanceType, room_membership, unknown_type, AccessState, can_join,
  forbidden, Visibility, world_readable, shared, invited, joined, JoinAllowance, JoinRules,
  ServerAcl, join_rule_to_string, string_to_join_rule, access_state_to_string,
  string_to_access_state, visibility_to_string, string_to_visibility, text_value, read_allowance,
  allow_in, read_join_rules, read_guest_access, read_history_visibility, read_server_acl,
  allowance_fields, write_allowance, allow_fields, join_rule_fields, write_join_rules,
  write_guest_access, write_history_visibility, acl_fields, write_server_acl,
}

rule_back : (rule : JoinRule) → string_to_join_rule (join_rule_to_string rule) ≡ rule
unfolding string_to_join_rule join_rule_to_string
rule_back public_rule = refl
rule_back invite_rule = refl
rule_back knock_rule = refl
rule_back private_rule = refl
rule_back restricted_rule = refl
rule_back knock_restricted_rule = refl

state_back : (state : AccessState) → string_to_access_state (access_state_to_string state) ≡ state
unfolding string_to_access_state access_state_to_string
state_back can_join = refl
state_back forbidden = refl

visibility_back : (rule : Visibility) → string_to_visibility (visibility_to_string rule) ≡ rule
unfolding string_to_visibility visibility_to_string
visibility_back world_readable = refl
visibility_back shared = refl
visibility_back invited = refl
visibility_back joined = refl

abbrev pub kept_room : JoinAllowanceType → String → String
kept_room room_membership room_id = room_id
kept_room unknown_type room_id = ""

-- An allowance of an unknown type is written without its room.
abbrev pub kept_allowance : JoinAllowance → JoinAllowance
kept_allowance a = record a { room_id = kept_room a.allowance_type a.room_id }

module _ (json : JsonLibrary) (writer : JsonWriter json) (laws : JsonLaws json writer) where
  -- A text is read from its field.
  text-back :
      (key s : String) (fields : Map json.Json)
      → lookup key fields ≡ some (writer.text s)
      → text_value json key (writer.object fields) ≡ some s
  text-back key s fields there =
      rw (value-object json writer laws (get_text json) "" key fields, there)
        (get_text-text json writer laws s)

  no_text-back :
      (key : String) (fields : Map json.Json)
      → lookup key fields ≡ none
      → text_value json key (writer.object fields) ≡ some ""
  no_text-back key fields gone =
      rw (value-object json writer laws (get_text json) "" key fields, gone) refl

  allowance-back :
      (t : JoinAllowanceType) (room_id : String)
      → read_allowance json (writer.object (allowance_fields json writer t room_id))
        ≡ some (record { allowance_type = t; room_id = kept_room t room_id })
  unfolding read_allowance lookup
  allowance-back room_membership room_id =
      rw
        (
          text-back "type" "m.room_membership"
              (allowance_fields json writer room_membership room_id) refl,
          text-back "room_id" room_id (allowance_fields json writer room_membership room_id) refl,
        )
        refl
  allowance-back unknown_type room_id =
      rw (no_text-back "type" [] refl, no_text-back "room_id" [] refl) refl

  read_allowance-write_allowance :
      (a : JoinAllowance)
      → read_allowance json (write_allowance json writer a) ≡ some (kept_allowance a)
  unfolding write_allowance
  read_allowance-write_allowance a = allowance-back a.allowance_type a.room_id

  allowances_same : (allow : List JoinAllowance) → All (λ a. a ≡ a) allow
  allowances_same [] = tt
  allowances_same (a ∷ allow) = (refl, allowances_same allow)

  allow-back :
      (allow : List JoinAllowance)
      → allow_in json (lookup "allow" (allow_fields json writer allow))
        ≡ some (map kept_allowance allow)
  unfolding lookup get_array
  allow-back [] = refl
  allow-back (a ∷ allow) = rw (laws.view_array (map (write_allowance json writer) (a ∷ allow))) (
      all_of-map json writer laws (λ a. a ≡ a) (read_allowance json) (write_allowance json writer)
        kept_allowance (λ a e. read_allowance-write_allowance a) (a ∷ allow)
        (allowances_same (a ∷ allow)))

  rules-back :
      (rules : JoinRules)
      → read_join_rules json (write_join_rules json writer rules)
        ≡ some (record rules { allow = map kept_allowance rules.allow })
  unfolding read_join_rules write_join_rules lookup
  rules-back rules =
      rw
        (
          text-back "join_rule" (join_rule_to_string rules.join_rule)
              (join_rule_fields json writer rules) refl,
          find-object json writer laws "allow" (join_rule_fields json writer rules),
          allow-back rules.allow,
          rule_back rules.join_rule,
        )
        refl

  acl-back : (acl : ServerAcl) → read_server_acl json (write_server_acl json writer acl) ≡ some acl
  unfolding read_server_acl write_server_acl lookup
  acl-back acl =
      rw
        (
          value-object json writer laws (get_texts json) [] "allow" (acl_fields json writer acl),
          get_texts-array json writer laws acl.allow,
          value-object json writer laws (get_texts json) [] "deny" (acl_fields json writer acl),
          get_texts-array json writer laws acl.deny,
          value-object json writer laws (get_bool json) true "allow_ip_literals"
              (acl_fields json writer acl),
          get_bool-flag json writer laws acl.allow_ip_literals,
        )
        refl

  -- What is written of who may enter and read a room is read back: the join rules, with an allowance of an
  -- unknown type without its room, the guests' access, the visibility of the history, and the servers
  -- that are allowed and denied.
  pub read_join_rules-write_join_rules :
      (rules : JoinRules) (state : AccessState) (rule : Visibility) (acl : ServerAcl)
      → (read_join_rules json (write_join_rules json writer rules)
          ≡ some (record rules { allow = map kept_allowance rules.allow }))
        × (read_guest_access json (write_guest_access json writer state) ≡ some state)
        × (read_history_visibility json (write_history_visibility json writer rule) ≡ some rule)
        × (read_server_acl json (write_server_acl json writer acl) ≡ some acl)
  unfolding read_guest_access write_guest_access read_history_visibility write_history_visibility
      lookup
  read_join_rules-write_join_rules rules state rule acl =
      let guests : Map json.Json =
        ("guest_access", writer.text (access_state_to_string state)) ∷ [] in
      let history : Map json.Json =
        ("history_visibility", writer.text (visibility_to_string rule)) ∷ [] in
      (
        rules-back rules,
        rw (text-back "guest_access" (access_state_to_string state) guests refl, state_back state)
            refl,
        rw
            (
              text-back "history_visibility" (visibility_to_string rule) history refl,
              visibility_back rule,
            )
            refl,
        acl-back acl,
      )
