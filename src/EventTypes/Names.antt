-- ===== src/EventTypes/Names.antt =====
-- Names and event types, back and forth.
use mtxclient.Shared.{
  String, ◌≡◌, ◌≢◌, ◌∙◌, ◌↔◌, refl, sym, Bool-cases, inl, inr, true, Option, none, some, List, [],
  ◌∷◌, all, str_eq, eq_iff, if◌then◌else◌,
}
use mtxclient.Shared.Ladder.{ladder, ladder_sound, ladder-eq-none}
use mtxclient.EventTypes.{
  EventType, get_event_type, to_string, key_verification_cancel, key_verification_request,
  key_verification_start, key_verification_accept, key_verification_key, key_verification_mac,
  key_verification_ready, key_verification_done, reaction, room_key, forwarded_room_key,
  room_key_request, room_aliases, room_avatar, room_canonical_alias, room_create, room_encrypted,
  room_encryption, room_guest_access, room_history_visibility, room_join_rules, room_member,
  room_message, room_name, room_power_levels, room_topic, room_redaction, room_pinned_events,
  room_tombstone, room_server_acl, sticker, tag, presence, push_rules, widget, vector_widget,
  policy_rule_user, policy_rule_room, policy_rule_server, space_child, space_parent, call_invite,
  call_candidates, call_answer, call_hang_up, call_select_answer, call_reject, call_negotiate,
  secret_request, secret_send, typing, receipt, fully_read, direct, ignored_users,
  nheko_hidden_events, nheko_event_expiry, nheko_invite_permissions, image_pack_in_room,
  image_pack_in_account_data, image_pack_rooms, dummy, unsupported,
}

-- The tests of `getEventType`, in its order.
abbrev names : List (String × EventType)
names =
    ("m.key.verification.request", key_verification_request)
    ∷ ("m.key.verification.start", key_verification_start)
    ∷ ("m.key.verification.accept", key_verification_accept)
    ∷ ("m.key.verification.ready", key_verification_ready)
    ∷ ("m.key.verification.done", key_verification_done)
    ∷ ("m.key.verification.key", key_verification_key)
    ∷ ("m.key.verification.mac", key_verification_mac)
    ∷ ("m.key.verification.cancel", key_verification_cancel)
    ∷ ("m.reaction", reaction)
    ∷ ("m.room_key", room_key)
    ∷ ("m.forwarded_room_key", forwarded_room_key)
    ∷ ("m.room_key_request", room_key_request)
    ∷ ("m.room.aliases", room_aliases)
    ∷ ("m.room.avatar", room_avatar)
    ∷ ("m.room.canonical_alias", room_canonical_alias)
    ∷ ("m.room.create", room_create)
    ∷ ("m.room.encrypted", room_encrypted)
    ∷ ("m.dummy", dummy)
    ∷ ("m.room.encryption", room_encryption)
    ∷ ("m.room.guest_access", room_guest_access)
    ∷ ("m.room.history_visibility", room_history_visibility)
    ∷ ("m.room.join_rules", room_join_rules)
    ∷ ("m.room.member", room_member)
    ∷ ("m.room.message", room_message)
    ∷ ("m.room.name", room_name)
    ∷ ("m.room.power_levels", room_power_levels)
    ∷ ("m.room.topic", room_topic)
    ∷ ("m.widget", widget)
    ∷ ("im.vector.modular.widgets", vector_widget)
    ∷ ("m.room.redaction", room_redaction)
    ∷ ("m.room.pinned_events", room_pinned_events)
    ∷ ("m.room.tombstone", room_tombstone)
    ∷ ("m.room.server_acl", room_server_acl)
    ∷ ("m.sticker", sticker)
    ∷ ("m.policy.rule.user", policy_rule_user)
    ∷ ("m.policy.rule.room", policy_rule_room)
    ∷ ("m.policy.rule.server", policy_rule_server)
    ∷ ("m.space.child", space_child)
    ∷ ("m.space.parent", space_parent)
    ∷ ("m.tag", tag)
    ∷ ("m.direct", direct)
    ∷ ("m.presence", presence)
    ∷ ("m.push_rules", push_rules)
    ∷ ("m.call.invite", call_invite)
    ∷ ("m.call.candidates", call_candidates)
    ∷ ("m.call.answer", call_answer)
    ∷ ("m.call.hangup", call_hang_up)
    ∷ ("m.call.select_answer", call_select_answer)
    ∷ ("m.call.reject", call_reject)
    ∷ ("m.call.negotiate", call_negotiate)
    ∷ ("m.secret.request", secret_request)
    ∷ ("m.secret.send", secret_send)
    ∷ ("m.typing", typing)
    ∷ ("m.receipt", receipt)
    ∷ ("m.fully_read", fully_read)
    ∷ ("m.ignored_user_list", ignored_users)
    ∷ ("im.nheko.hidden_events", nheko_hidden_events)
    ∷ ("im.nheko.event_expiry", nheko_event_expiry)
    ∷ ("im.nheko.invite_permissions", nheko_invite_permissions)
    ∷ ("im.ponies.room_emotes", image_pack_in_room)
    ∷ ("im.ponies.user_emotes", image_pack_in_account_data)
    ∷ ("im.ponies.emote_rooms", image_pack_rooms)
    ∷ []

names_agree : all (λ e. str_eq (to_string e.1) e.0) names ≡ true
unfolding to_string
names_agree = refl

abbrev last_branch : String → Option EventType
last_branch type = if str_eq type "" then none else some unsupported

get_event_type-ladder : (type : String) → ladder names (last_branch type) type ≡ get_event_type type
unfolding get_event_type
get_event_type-ladder type = refl

get_event_type-to_string : (t : EventType) → t ≢ unsupported → get_event_type (to_string t) ≡ some t
unfolding get_event_type to_string
get_event_type-to_string unsupported h = absurd (h refl)
get_event_type-to_string _ h = refl

last_branch-ne : (type : String) (t : EventType) → t ≢ unsupported → last_branch type ≢ some t
last_branch-ne type t h e = elim (Bool-cases (str_eq type "")) [
  | inl empty ↦ cc (rw empty at e)
  | inr other ↦ h (cc (rw other at e))
]

-- The name of a supported event type is the one text that is read as this type.
pub get_event_type_iff :
    (type : String) (t : EventType)
    → t ≢ unsupported
    → (get_event_type type ≡ some t) ↔ (type ≡ to_string t)
get_event_type_iff type t h = (to, from)
  where
    to : get_event_type type ≡ some t → type ≡ to_string t
    to e =
        elim (ladder_sound to_string names (last_branch type) type t names_agree
          (get_event_type-ladder type ∙ e)) [
            | inl same ↦ sym same
            | inr last ↦ absurd (last_branch-ne type t h last)
          ]

    from : type ≡ to_string t → get_event_type type ≡ some t
    from e = rw e (get_event_type-to_string t h)

-- Reading a name throws for the empty text alone.
get_event_type-eq-none_iff : (type : String) → (get_event_type type ≡ none) ↔ (type ≡ "")
get_event_type-eq-none_iff type = (to, from)
  where
    to : get_event_type type ≡ none → type ≡ ""
    to e =
        let last : last_branch type ≡ none =
          ladder-eq-none names (last_branch type) type (get_event_type-ladder type ∙ e) in
        elim (Bool-cases (str_eq type "")) [
          | inl empty ↦ (eq_iff type "").0 empty
          | inr other ↦ cc (rw other at last)
        ]

    from : type ≡ "" → get_event_type type ≡ none
    from e = rw e (unfold get_event_type in refl)
