-- ===== src/EventTypes.antt =====
-- include/mtx/events/event_type.hpp and the names of event types in lib/structs/events.cpp.
pub mod Names
mod Examples
use mtxclient.Shared.{String, Option, none, some, str_eq, if◌then◌else◌}

pub data EventType : Type 0 where
  key_verification_cancel : EventType
  key_verification_request : EventType
  key_verification_start : EventType
  key_verification_accept : EventType
  key_verification_key : EventType
  key_verification_mac : EventType
  key_verification_ready : EventType
  key_verification_done : EventType
  reaction : EventType
  room_key : EventType
  forwarded_room_key : EventType
  room_key_request : EventType
  room_aliases : EventType
  room_avatar : EventType
  room_canonical_alias : EventType
  room_create : EventType
  room_encrypted : EventType
  room_encryption : EventType
  room_guest_access : EventType
  room_history_visibility : EventType
  room_join_rules : EventType
  room_member : EventType
  room_message : EventType
  room_name : EventType
  room_power_levels : EventType
  room_topic : EventType
  room_redaction : EventType
  room_pinned_events : EventType
  room_tombstone : EventType
  room_server_acl : EventType
  sticker : EventType
  tag : EventType
  presence : EventType
  push_rules : EventType
  widget : EventType
  vector_widget : EventType
  policy_rule_user : EventType
  policy_rule_room : EventType
  policy_rule_server : EventType
  space_child : EventType
  space_parent : EventType
  call_invite : EventType
  call_candidates : EventType
  call_answer : EventType
  call_hang_up : EventType
  call_select_answer : EventType
  call_reject : EventType
  call_negotiate : EventType
  secret_request : EventType
  secret_send : EventType
  typing : EventType
  receipt : EventType
  fully_read : EventType
  direct : EventType
  ignored_users : EventType
  nheko_hidden_events : EventType
  nheko_event_expiry : EventType
  nheko_invite_permissions : EventType
  image_pack_in_room : EventType
  image_pack_in_account_data : EventType
  image_pack_rooms : EventType
  dummy : EventType
  unsupported : EventType

-- `getEventType(const std::string &)`; `none` is the exception for an empty name.
unfoldable pub get_event_type : String → Option EventType
get_event_type type =
    if str_eq type "m.key.verification.request"
    then some key_verification_request
    else if str_eq type "m.key.verification.start"
    then some key_verification_start
    else if str_eq type "m.key.verification.accept"
    then some key_verification_accept
    else if str_eq type "m.key.verification.ready"
    then some key_verification_ready
    else if str_eq type "m.key.verification.done"
    then some key_verification_done
    else if str_eq type "m.key.verification.key"
    then some key_verification_key
    else if str_eq type "m.key.verification.mac"
    then some key_verification_mac
    else if str_eq type "m.key.verification.cancel"
    then some key_verification_cancel
    else if str_eq type "m.reaction"
    then some reaction
    else if str_eq type "m.room_key"
    then some room_key
    else if str_eq type "m.forwarded_room_key"
    then some forwarded_room_key
    else if str_eq type "m.room_key_request"
    then some room_key_request
    else if str_eq type "m.room.aliases"
    then some room_aliases
    else if str_eq type "m.room.avatar"
    then some room_avatar
    else if str_eq type "m.room.canonical_alias"
    then some room_canonical_alias
    else if str_eq type "m.room.create"
    then some room_create
    else if str_eq type "m.room.encrypted"
    then some room_encrypted
    else if str_eq type "m.dummy"
    then some dummy
    else if str_eq type "m.room.encryption"
    then some room_encryption
    else if str_eq type "m.room.guest_access"
    then some room_guest_access
    else if str_eq type "m.room.history_visibility"
    then some room_history_visibility
    else if str_eq type "m.room.join_rules"
    then some room_join_rules
    else if str_eq type "m.room.member"
    then some room_member
    else if str_eq type "m.room.message"
    then some room_message
    else if str_eq type "m.room.name"
    then some room_name
    else if str_eq type "m.room.power_levels"
    then some room_power_levels
    else if str_eq type "m.room.topic"
    then some room_topic
    else if str_eq type "m.widget"
    then some widget
    else if str_eq type "im.vector.modular.widgets"
    then some vector_widget
    else if str_eq type "m.room.redaction"
    then some room_redaction
    else if str_eq type "m.room.pinned_events"
    then some room_pinned_events
    else if str_eq type "m.room.tombstone"
    then some room_tombstone
    else if str_eq type "m.room.server_acl"
    then some room_server_acl
    else if str_eq type "m.sticker"
    then some sticker
    else if str_eq type "m.policy.rule.user"
    then some policy_rule_user
    else if str_eq type "m.policy.rule.room"
    then some policy_rule_room
    else if str_eq type "m.policy.rule.server"
    then some policy_rule_server
    else if str_eq type "m.space.child"
    then some space_child
    else if str_eq type "m.space.parent"
    then some space_parent
    else if str_eq type "m.tag"
    then some tag
    else if str_eq type "m.direct"
    then some direct
    else if str_eq type "m.presence"
    then some presence
    else if str_eq type "m.push_rules"
    then some push_rules
    else if str_eq type "m.call.invite"
    then some call_invite
    else if str_eq type "m.call.candidates"
    then some call_candidates
    else if str_eq type "m.call.answer"
    then some call_answer
    else if str_eq type "m.call.hangup"
    then some call_hang_up
    else if str_eq type "m.call.select_answer"
    then some call_select_answer
    else if str_eq type "m.call.reject"
    then some call_reject
    else if str_eq type "m.call.negotiate"
    then some call_negotiate
    else if str_eq type "m.secret.request"
    then some secret_request
    else if str_eq type "m.secret.send"
    then some secret_send
    else if str_eq type "m.typing"
    then some typing
    else if str_eq type "m.receipt"
    then some receipt
    else if str_eq type "m.fully_read"
    then some fully_read
    else if str_eq type "m.ignored_user_list"
    then some ignored_users
    else if str_eq type "im.nheko.hidden_events"
    then some nheko_hidden_events
    else if str_eq type "im.nheko.event_expiry"
    then some nheko_event_expiry
    else if str_eq type "im.nheko.invite_permissions"
    then some nheko_invite_permissions
    else if str_eq type "im.ponies.room_emotes"
    then some image_pack_in_room
    else if str_eq type "im.ponies.user_emotes"
    then some image_pack_in_account_data
    else if str_eq type "im.ponies.emote_rooms"
    then some image_pack_rooms
    else if str_eq type ""
    then none
    else some unsupported

-- `to_string(EventType)`
unfoldable pub to_string : EventType → String
to_string key_verification_cancel = "m.key.verification.cancel"
to_string key_verification_request = "m.key.verification.request"
to_string key_verification_start = "m.key.verification.start"
to_string key_verification_accept = "m.key.verification.accept"
to_string key_verification_key = "m.key.verification.key"
to_string key_verification_ready = "m.key.verification.ready"
to_string key_verification_done = "m.key.verification.done"
to_string key_verification_mac = "m.key.verification.mac"
to_string reaction = "m.reaction"
to_string room_key = "m.room_key"
to_string forwarded_room_key = "m.forwarded_room_key"
to_string room_key_request = "m.room_key_request"
to_string room_aliases = "m.room.aliases"
to_string room_avatar = "m.room.avatar"
to_string room_canonical_alias = "m.room.canonical_alias"
to_string room_create = "m.room.create"
to_string room_encrypted = "m.room.encrypted"
to_string dummy = "m.dummy"
to_string room_encryption = "m.room.encryption"
to_string room_guest_access = "m.room.guest_access"
to_string room_history_visibility = "m.room.history_visibility"
to_string room_join_rules = "m.room.join_rules"
to_string room_member = "m.room.member"
to_string room_message = "m.room.message"
to_string room_name = "m.room.name"
to_string room_power_levels = "m.room.power_levels"
to_string room_topic = "m.room.topic"
to_string widget = "m.widget"
to_string vector_widget = "im.vector.modular.widgets"
to_string room_redaction = "m.room.redaction"
to_string room_pinned_events = "m.room.pinned_events"
to_string room_tombstone = "m.room.tombstone"
to_string room_server_acl = "m.room.server_acl"
to_string sticker = "m.sticker"
to_string policy_rule_user = "m.policy.rule.user"
to_string policy_rule_room = "m.policy.rule.room"
to_string policy_rule_server = "m.policy.rule.server"
to_string space_child = "m.space.child"
to_string space_parent = "m.space.parent"
to_string tag = "m.tag"
to_string direct = "m.direct"
to_string presence = "m.presence"
to_string push_rules = "m.push_rules"
to_string call_invite = "m.call.invite"
to_string call_candidates = "m.call.candidates"
to_string call_answer = "m.call.answer"
to_string call_hang_up = "m.call.hangup"
to_string call_select_answer = "m.call.select_answer"
to_string call_reject = "m.call.reject"
to_string call_negotiate = "m.call.negotiate"
to_string secret_request = "m.secret.request"
to_string secret_send = "m.secret.send"
to_string typing = "m.typing"
to_string receipt = "m.receipt"
to_string fully_read = "m.fully_read"
to_string ignored_users = "m.ignored_user_list"
to_string nheko_hidden_events = "im.nheko.hidden_events"
to_string nheko_event_expiry = "im.nheko.event_expiry"
to_string nheko_invite_permissions = "im.nheko.invite_permissions"
to_string image_pack_in_room = "im.ponies.room_emotes"
to_string image_pack_in_account_data = "im.ponies.user_emotes"
to_string image_pack_rooms = "im.ponies.emote_rooms"
to_string unsupported = ""
