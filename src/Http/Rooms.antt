-- ===== src/Http/Rooms.antt =====
-- lib/http/client.cpp and client_impl.hpp: the events, the state and the members of a room.
use mtxclient.Shared.{
  ℕ, ℤ, pos, negsuc, Bool, true, false, not, List, [], ◌+++◌, Option, none, some, leb, ltb,
  if◌then◌else◌, codes,
}
use mtxclient.Utils.{url_encode, query_params}
use mtxclient.EventTypes.{EventType, room_encryption}
use mtxclient.EventTypes
use mtxclient.Http.Membership.{reason_field}
use mtxclient.Http.Params.{emplace, emplace_if}
use mtxclient.Http.{
  Client, Call, Body, string, number, boolean, object, Fields, end, field, is_empty, decimal,
  get_call, put_call, post_call,
}

unfoldable pub create_room : Body → Call
create_room room_options = post_call (codes "/client/v3/createRoom") room_options

unfoldable pub get_event : List ℕ → List ℕ → Call
get_event room_id event_id =
    get_call
      (codes "/client/v3/rooms/" +++ url_encode room_id +++ codes "/event/" +++ url_encode event_id)

pub data Membership : Type 0 where
  join : Membership
  invite : Membership
  ban : Membership
  leave : Membership
  knock : Membership

-- `membershipToString`
abbrev pub membership_to_string : Membership → List ℕ
membership_to_string join = codes "join"
membership_to_string invite = codes "invite"
membership_to_string ban = codes "ban"
membership_to_string leave = codes "leave"
membership_to_string knock = codes "knock"

-- `emplace` of a membership, where there is one
unfoldable pub emplace_membership :
    List ℕ → Option Membership → List (List ℕ × List ℕ) → List (List ℕ × List ℕ)
emplace_membership key none params = params
emplace_membership key (some membership) params =
    emplace key (membership_to_string membership) params

unfoldable pub members : List ℕ → List ℕ → Option Membership → Option Membership → Call
members room_id at membership not_membership =
    let params = emplace_if (not (is_empty at)) (codes "at") at [] in
    let params = emplace_membership (codes "membership") membership params in
    let params = emplace_membership (codes "not_membership") not_membership params in
    get_call (
      codes "/client/v3/rooms/"
      +++ url_encode room_id
      +++ codes "/members?"
      +++ query_params params)

pub data PaginationDirection : Type 0 where
  backwards : PaginationDirection
  forwards : PaginationDirection

-- `to_string(PaginationDirection)`
abbrev pub direction_to_string : PaginationDirection → List ℕ
direction_to_string backwards = codes "b"
direction_to_string forwards = codes "f"

pub record MessagesOpts : Type 0 where
  pub room_id : List ℕ
  pub from : List ℕ
  pub to : List ℕ
  pub filter : List ℕ
  pub dir : PaginationDirection
  pub limit : ℕ

-- The parameters of `messages`.
unfoldable pub messages_params : MessagesOpts → List (List ℕ × List ℕ)
messages_params opts =
    let params = emplace (codes "dir") (direction_to_string opts.dir) [] in
    let params = emplace_if (not (is_empty opts.from)) (codes "from") opts.from params in
    let params = emplace_if (not (is_empty opts.to)) (codes "to") opts.to params in
    let params = emplace_if (ltb 0 opts.limit) (codes "limit") (decimal opts.limit) params in
    emplace_if (not (is_empty opts.filter)) (codes "filter") opts.filter params

unfoldable pub messages : MessagesOpts → Call
messages opts = get_call (
    codes "/client/v3/rooms/"
    +++ url_encode opts.room_id
    +++ codes "/messages?"
    +++ query_params (messages_params opts))

-- The fields of the body of `read_event`.
unfoldable pub read_markers : List ℕ → Bool → Fields
read_markers event_id hidden = field (codes "m.fully_read") (string event_id) (
    field (codes "org.matrix.msc2285.read.private") (string event_id) (
      field (codes "m.read.private") (string event_id)
        (if not hidden then field (codes "m.read") (string event_id) end else end)))

unfoldable pub read_event : List ℕ → List ℕ → Bool → Call
read_event room_id event_id hidden =
    post_call (codes "/client/v3/rooms/" +++ url_encode room_id +++ codes "/read_markers")
      (object (read_markers event_id hidden))

-- The transaction's id is a random token of the caller's choice.
unfoldable pub redact_event : List ℕ → List ℕ → List ℕ → List ℕ → Call
redact_event random_token room_id event_id reason =
    put_call
      (codes "/client/v3/rooms/"
        +++ url_encode room_id
        +++ codes "/redact/"
        +++ url_encode event_id
        +++ codes "/"
        +++ url_encode random_token)
      (object (reason_field reason))

-- `score <= 0 && score >= -100`
abbrev pub is_score : ℤ → Bool
is_score (pos n) = leb n 0
is_score (negsuc n) = ltb n 100

unfoldable pub report_event : List ℕ → List ℕ → List ℕ → ℤ → Call
report_event room_id event_id reason score =
    let scored = if is_score score then field (codes "score") (number score) end else end in
    put_call
      (codes "/client/v3/rooms" +++ url_encode room_id +++ codes "/report/" +++ url_encode event_id)
      (object (if is_empty reason then scored else field (codes "reason") (string reason) scored))

-- `send_state_event` with the type as a text
unfoldable pub send_state_event : List ℕ → List ℕ → List ℕ → Body → Call
send_state_event room_id event_type state_key req =
    put_call
      (codes "/client/v3/rooms/"
        +++ url_encode room_id
        +++ codes "/state/"
        +++ url_encode event_type
        +++ codes "/"
        +++ url_encode state_key)
      req

-- `send_state_event` of a content, whose type is known.
unfoldable pub send_state_content : List ℕ → EventType → List ℕ → Body → Call
send_state_content room_id event_type state_key req =
    put_call
      (codes "/client/v3/rooms/"
        +++ url_encode room_id
        +++ codes "/state/"
        +++ codes (EventTypes.to_string event_type)
        +++ codes "/"
        +++ url_encode state_key)
      req

unfoldable pub send_room_message : List ℕ → EventType → List ℕ → Body → Call
send_room_message room_id event_type txn_id req =
    put_call
      (codes "/client/v3/rooms/"
        +++ url_encode room_id
        +++ codes "/send/"
        +++ codes (EventTypes.to_string event_type)
        +++ codes "/"
        +++ url_encode txn_id)
      req

unfoldable pub get_state : List ℕ → Call
get_state room_id = get_call (codes "/client/v3/rooms/" +++ url_encode room_id +++ codes "/state")

unfoldable pub get_state_event : List ℕ → List ℕ → List ℕ → Call
get_state_event room_id event_type state_key = get_call (
    codes "/client/v3/rooms/"
    +++ url_encode room_id
    +++ codes "/state/"
    +++ url_encode event_type
    +++ codes "/"
    +++ url_encode state_key)

-- `to_json` of `state::Encryption` at its default values
abbrev pub default_encryption : Body
default_encryption = object (
    field (codes "algorithm") (string (codes "m.megolm.v1.aes-sha2")) (
      field (codes "rotation_period_ms") (number (pos 604800000))
        (field (codes "rotation_period_msgs") (number (pos 100)) end)))

unfoldable pub enable_encryption : List ℕ → Call
enable_encryption room = send_state_content room room_encryption [] default_encryption

-- `to_json` of `TypingNotification`
abbrev pub typing_notification : Bool → ℕ → Body
typing_notification typing timeout =
    object
      (field (codes "typing") (boolean typing) (field (codes "timeout") (number (pos timeout)) end))

unfoldable pub start_typing : Client → List ℕ → ℕ → Call
start_typing c room_id timeout =
    put_call
      (codes "/client/v3/rooms/"
        +++ url_encode room_id
        +++ codes "/typing/"
        +++ url_encode c.user_id.id)
      (typing_notification true timeout)

unfoldable pub stop_typing : Client → List ℕ → Call
stop_typing c room_id =
    put_call
      (codes "/client/v3/rooms/"
        +++ url_encode room_id
        +++ codes "/typing/"
        +++ url_encode c.user_id.id)
      (typing_notification false 0)

unfoldable pub list_room_aliases : List ℕ → Call
list_room_aliases room_id =
    get_call (codes "/client/v3/rooms/" +++ url_encode room_id +++ codes "/aliases")
