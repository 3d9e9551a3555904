-- ===== src/RoomAccess/Examples.antt =====
-- The theorem at a room that the members of another may join.
use mtxclient.Shared.{◌≡◌, refl, false, some, [], ◌∷◌, map, lookup}
use mtxclient.Samples.{sample_json, sample_writer, sample_writer-laws, obj, none_left}
use mtxclient.Json.{find}
use mtxclient.RoomAccess.{
  private_rule, restricted_rule, room_membership, unknown_type, can_join, world_readable, JoinRules,
  ServerAcl, string_to_join_rule, read_join_rules, read_guest_access, read_history_visibility,
  read_server_acl, write_join_rules, write_guest_access, write_history_visibility, write_server_acl,
}
use mtxclient.RoomAccess.Roundtrip.{kept_allowance, read_join_rules-write_join_rules}

abbrev rules : JoinRules
rules = record {
  join_rule = restricted_rule;
  allow =
      record { allowance_type = room_membership; room_id = "!space:example.org" }
      ∷ (record { allowance_type = unknown_type; room_id = "!lost:example.org" } ∷ []);
}

abbrev acl : ServerAcl
acl = record { allow = "*" ∷ []; deny = "evil.example.org" ∷ []; allow_ip_literals = false }

-- A room without a join rule is private.
no_rule :
    read_join_rules sample_json (obj none_left)
    ≡ some (record { join_rule = private_rule; allow = [] })
unfolding read_join_rules string_to_join_rule find lookup
no_rule = refl

read_join_rules-write_join_rules_example :
    (read_join_rules sample_json (write_join_rules sample_json sample_writer rules)
      ≡ some (record rules { allow = map kept_allowance rules.allow }))
    × (read_guest_access sample_json (write_guest_access sample_json sample_writer can_join)
        ≡ some can_join)
    × (read_history_visibility sample_json
          (write_history_visibility sample_json sample_writer world_readable)
        ≡ some world_readable)
    × (read_server_acl sample_json (write_server_acl sample_json sample_writer acl) ≡ some acl)
read_join_rules-write_join_rules_example =
    read_join_rules-write_join_rules sample_json sample_writer sample_writer-laws rules can_join
      world_readable acl
