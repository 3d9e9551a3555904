-- ===== src/Http/Paths/Rooms.antt =====
-- The paths of the calls about a room.
use mtxclient.Shared.{
  ℕ, ℤ, ◌≡◌, refl, Bool, true, not, Option, List, [], ◌∷◌, ◌++◌, all, codes, arith, AreBytes,
}
use mtxclient.Utils.{is_kept, query_params, url_encode}
use mtxclient.EventTypes.{EventType, unsupported}
use mtxclient.EventTypes
use mtxclient.Http.{Client, Body, is_empty}
use mtxclient.Http.Params.{emplace_if}
use mtxclient.Http.Push.{query_of}
use mtxclient.Http.Directory.{get_hierarchy, hierarchy_params}
use mtxclient.Http.Membership.{leave_room, invite_user, kick_user, ban_user, unban_user}
use mtxclient.Http.Rooms.{
  get_event, members, messages, messages_params, read_event, redact_event, report_event,
  send_state_event, send_state_content, send_room_message, get_state, get_state_event,
  enable_encryption, start_typing, stop_typing, list_room_aliases, emplace_membership, Membership,
  MessagesOpts,
}
use mtxclient.Http.Paths.{
  read_path, Part, word, given, joined, query_of-IsQuery, read_path-write_path,
  read_path-plain_path,
}

-- What is read in front of the words and arguments behind a room's id, and how it is written.
abbrev in_room : List ℕ → List (List ℕ) → List (List ℕ)
in_room room_id parts = codes "client" ∷ (codes "v3" ∷ (codes "rooms" ∷ (room_id ∷ parts)))

abbrev of_room : List ℕ → List Part → List Part
of_room room_id parts =
    word (codes "client") ∷ (word (codes "v3") ∷ (word (codes "rooms") ∷ (given room_id ∷ parts)))

-- The names of event types need no encoding.
kept_name : (t : EventType) → all is_kept (codes (EventTypes.to_string t)) ≡ true
unfolding EventTypes.to_string is_kept
kept_name unsupported = refl
kept_name _ = refl

-- What is read in the paths.
abbrev pub RoomPaths :
    Client
    → List ℕ
    → List ℕ
    → List ℕ
    → List ℕ
    → List ℕ
    → EventType
    → Option Membership
    → Option Membership
    → MessagesOpts
    → Bool
    → ℕ
    → ℕ
    → ℤ
    → Body
    → Type 0
RoomPaths c room_id event_id custom state_key reason event_type membership not_membership opts
      hidden timeout depth score req =
    (read_path (leave_room room_id reason).endpoint ≡ in_room room_id (codes "leave" ∷ []))
    × (read_path (invite_user room_id state_key reason).endpoint
        ≡ in_room room_id (codes "invite" ∷ []))
    × (read_path (kick_user room_id state_key reason).endpoint
        ≡ in_room room_id (codes "kick" ∷ []))
    × (read_path (ban_user room_id state_key reason).endpoint ≡ in_room room_id (codes "ban" ∷ []))
    × (read_path (unban_user room_id state_key reason).endpoint
        ≡ in_room room_id (codes "unban" ∷ []))
    × (read_path (get_event room_id event_id).endpoint
        ≡ in_room room_id (codes "event" ∷ (event_id ∷ [])))
    × (read_path (members room_id reason membership not_membership).endpoint
        ≡ in_room room_id (codes "members" ∷ []))
    × (read_path (messages (record opts { room_id = room_id })).endpoint
        ≡ in_room room_id (codes "messages" ∷ []))
    × (read_path (read_event room_id event_id hidden).endpoint
        ≡ in_room room_id (codes "read_markers" ∷ []))
    × (read_path (redact_event state_key room_id event_id reason).endpoint
        ≡ in_room room_id (codes "redact" ∷ (event_id ∷ (state_key ∷ []))))
    × (read_path (send_state_event room_id custom state_key req).endpoint
        ≡ in_room room_id (codes "state" ∷ (custom ∷ (state_key ∷ []))))
    × (read_path (send_state_content room_id event_type state_key req).endpoint
        ≡ in_room room_id
            (codes "state" ∷ ((codes (EventTypes.to_string event_type)) ∷ (state_key ∷ []))))
    × (read_path (send_room_message room_id event_type state_key req).endpoint
        ≡ in_room room_id
            (codes "send" ∷ ((codes (EventTypes.to_string event_type)) ∷ (state_key ∷ []))))
    × (read_path (get_state room_id).endpoint ≡ in_room room_id (codes "state" ∷ []))
    × (read_path (get_state_event room_id custom state_key).endpoint
        ≡ in_room room_id (codes "state" ∷ (custom ∷ (state_key ∷ []))))
    × (read_path (enable_encryption room_id).endpoint
        ≡ in_room room_id (codes "state" ∷ (codes "m.room.encryption" ∷ (codes "" ∷ []))))
    × (read_path (start_typing c room_id timeout).endpoint
        ≡ in_room room_id (codes "typing" ∷ (c.user_id.id ∷ [])))
    × (read_path (stop_typing c room_id).endpoint
        ≡ in_room room_id (codes "typing" ∷ (c.user_id.id ∷ [])))
    × (read_path (list_room_aliases room_id).endpoint ≡ in_room room_id (codes "aliases" ∷ []))
    × (read_path (report_event room_id event_id reason score).endpoint ≡ (
        codes "client"
        ∷ (codes "v3" ∷ ((codes "rooms" ++ room_id) ∷ (codes "report" ∷ (event_id ∷ []))))))
    × (read_path (get_hierarchy room_id reason timeout depth hidden).endpoint
        ≡ (codes "client" ∷ (codes "v1" ∷ (codes "rooms" ∷ (room_id ∷ (codes "hierarchy" ∷ []))))))

-- A server that splits the path of a call below `/client/v3/rooms`, or of `get_hierarchy`, at its slashes and decodes
-- the parts reads the words of the endpoint and the arguments in their places, whatever bytes the arguments are: none
-- of them leaves its part or begins the query. Only `report_event` has no slash in front of the room's id, so that
-- this part is the word `rooms` with the id behind it.
pub read_path-rooms :
    (c : Client) (room_id event_id custom state_key reason : List ℕ) (event_type : EventType)
    (membership not_membership : Option Membership) (opts : MessagesOpts) (hidden : Bool)
    (timeout depth : ℕ) (score : ℤ) (req : Body)
    → AreBytes c.user_id.id
    → AreBytes room_id
    → AreBytes event_id
    → AreBytes custom
    → AreBytes state_key
    → RoomPaths c room_id event_id custom state_key reason event_type membership not_membership opts
        hidden timeout depth score req
unfolding leave_room invite_user kick_user ban_user unban_user get_event members messages read_event
    redact_event send_state_event send_state_content send_room_message get_state get_state_event
    enable_encryption start_typing stop_typing list_room_aliases report_event get_hierarchy is_kept
    EventTypes.to_string url_encode
read_path-rooms c room_id event_id custom state_key reason event_type membership not_membership opts
      hidden timeout depth score req n h k m l =
    (
      read_path-plain_path (of_room room_id (word (codes "leave") ∷ [])) (ground arith),
      read_path-plain_path (of_room room_id (word (codes "invite") ∷ [])) (ground arith),
      read_path-plain_path (of_room room_id (word (codes "kick") ∷ [])) (ground arith),
      read_path-plain_path (of_room room_id (word (codes "ban") ∷ [])) (ground arith),
      read_path-plain_path (of_room room_id (word (codes "unban") ∷ [])) (ground arith),
      read_path-plain_path (of_room room_id (word (codes "event") ∷ (given event_id ∷ [])))
          (ground arith),
      read_path-write_path (of_room room_id (word (codes "members") ∷ []))
          (b'?'
            ∷ query_params (
                emplace_membership (codes "not_membership") not_membership (
                  emplace_membership (codes "membership") membership
                    (emplace_if (not (is_empty reason)) (codes "at") reason []))))
          (ground arith) refl,
      read_path-write_path (of_room room_id (word (codes "messages") ∷ []))
          (b'?' ∷ query_params (messages_params (record opts { room_id = room_id }))) (ground arith)
          refl,
      read_path-plain_path (of_room room_id (word (codes "read_markers") ∷ [])) (ground arith),
      read_path-plain_path
          (of_room room_id (word (codes "redact") ∷ (given event_id ∷ (given state_key ∷ []))))
          (ground arith),
      read_path-plain_path
          (of_room room_id (word (codes "state") ∷ (given custom ∷ (given state_key ∷ []))))
          (ground arith),
      read_path-plain_path
          (of_room room_id (
            word (codes "state")
            ∷ (word (codes (EventTypes.to_string event_type)) ∷ (given state_key ∷ []))))
          (ground (arith, kept_name event_type)),
      read_path-plain_path
          (of_room room_id (
            word (codes "send")
            ∷ (word (codes (EventTypes.to_string event_type)) ∷ (given state_key ∷ []))))
          (ground (arith, kept_name event_type)),
      read_path-plain_path (of_room room_id (word (codes "state") ∷ [])) (ground arith),
      read_path-plain_path
          (of_room room_id (word (codes "state") ∷ (given custom ∷ (given state_key ∷ []))))
          (ground arith),
      read_path-plain_path
          (of_room room_id
            (word (codes "state") ∷ (word (codes "m.room.encryption") ∷ (word (codes "") ∷ []))))
          (ground arith),
      read_path-plain_path (of_room room_id (word (codes "typing") ∷ (given c.user_id.id ∷ [])))
          (ground arith),
      read_path-plain_path (of_room room_id (word (codes "typing") ∷ (given c.user_id.id ∷ [])))
          (ground arith),
      read_path-plain_path (of_room room_id (word (codes "aliases") ∷ [])) (ground arith),
      read_path-plain_path
          ((word (codes "client")
            ∷ (word (codes "v3")
                ∷ (joined (codes "rooms") room_id
                    ∷ (word (codes "report") ∷ (given event_id ∷ []))))))
          (ground arith),
      read_path-write_path
          ((word (codes "client")
            ∷ (word (codes "v1")
                ∷ (word (codes "rooms") ∷ (given room_id ∷ (word (codes "hierarchy") ∷ []))))))
          (query_of (hierarchy_params reason timeout depth hidden)) (ground arith)
          (query_of-IsQuery _),
    )
