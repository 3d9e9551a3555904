-- ===== src/Http/Membership.antt =====
-- lib/http/client.cpp: joining and leaving rooms, and changing who is in them.
use mtxclient.Shared.{ℕ, List, [], ◌∷◌, ◌+++◌, if◌then◌else◌, codes}
use mtxclient.Utils.{url_encode}
use mtxclient.Http.{Call, Body, string, object, Fields, end, field, is_empty, post_call}

-- `body["reason"] = reason` where the reason is not empty
abbrev pub reason_field : List ℕ → Fields
reason_field reason = if is_empty reason then end else field (codes "reason") (string reason) end

-- `to_json` of `RoomMembershipChange`
abbrev pub membership_change : List ℕ → List ℕ → Body
membership_change user_id reason =
    object (field (codes "user_id") (string user_id) (reason_field reason))

-- The loops over the servers, each with the name of its parameter before the server.
unfoldable pub repeated : List ℕ → List (List ℕ) → List ℕ
repeated name [] = []
repeated name (v ∷ via) = b'&' ∷ (name +++ b'=' ∷ (url_encode v +++ repeated name via))

-- The query of `join_room` and `knock_room`.
unfoldable pub via_query : List (List ℕ) → List ℕ
via_query [] = []
via_query (v ∷ via) =
    codes "?server_name="
    +++ url_encode v
    +++ repeated (codes "server_name") via
    +++ repeated (codes "via") (v ∷ via)

unfoldable pub join_room : List ℕ → List (List ℕ) → List ℕ → Call
join_room room via reason =
    post_call (codes "/client/v3/join/" +++ url_encode room +++ via_query via)
      (object (reason_field reason))

unfoldable pub knock_room : List ℕ → List (List ℕ) → List ℕ → Call
knock_room room via reason =
    post_call (codes "/client/v3/knock/" +++ url_encode room +++ via_query via)
      (object (reason_field reason))

unfoldable pub leave_room : List ℕ → List ℕ → Call
leave_room room_id reason =
    post_call (codes "/client/v3/rooms/" +++ url_encode room_id +++ codes "/leave")
      (object (reason_field reason))

unfoldable pub invite_user : List ℕ → List ℕ → List ℕ → Call
invite_user room_id user_id reason =
    post_call (codes "/client/v3/rooms/" +++ url_encode room_id +++ codes "/invite")
      (membership_change user_id reason)

unfoldable pub kick_user : List ℕ → List ℕ → List ℕ → Call
kick_user room_id user_id reason =
    post_call (codes "/client/v3/rooms/" +++ url_encode room_id +++ codes "/kick")
      (membership_change user_id reason)

unfoldable pub ban_user : List ℕ → List ℕ → List ℕ → Call
ban_user room_id user_id reason =
    post_call (codes "/client/v3/rooms/" +++ url_encode room_id +++ codes "/ban")
      (membership_change user_id reason)

unfoldable pub unban_user : List ℕ → List ℕ → List ℕ → Call
unban_user room_id user_id reason =
    post_call (codes "/client/v3/rooms/" +++ url_encode room_id +++ codes "/unban")
      (membership_change user_id reason)
