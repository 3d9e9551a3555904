-- ===== src/Http/Paths/Users.antt =====
-- The paths of the calls about users, devices, secrets, aliases, and rooms to join.
use mtxclient.Shared.{ℕ, ◌≡◌, refl, Bool, Option, List, [], ◌∷◌, ◌++◌, codes, arith, AreBytes}
use mtxclient.Utils.{is_kept}
use mtxclient.Http.{Client, Body}
use mtxclient.Http.Membership.{join_room, knock_room, via_query}
use mtxclient.Http.Users.{
  get_tags, put_tag, delete_tag, upload_filter, set_avatar_url, set_displayname, get_profile,
  get_avatar_url, presence_status, put_presence_status, PresenceState, get_device, set_device_name,
  send_to_device,
}
use mtxclient.Http.Keys.{
  secret_storage_secret, upload_secret_storage_secret, secret_storage_key,
  upload_secret_storage_key, set_secret_storage_default_key,
}
use mtxclient.Http.Directory.{
  resolve_room_alias, add_room_alias, delete_room_alias, get_room_visibility, put_room_visibility,
}
use mtxclient.Http.Paths.Rules.{RulePaths, read_path-rules}
use mtxclient.Http.Paths.{
  read_path, word, given, joined, in_client, of_client, IsQuery, read_path-write_path,
  read_path-plain_path,
}

via_query-IsQuery : (via : List (List ℕ)) → IsQuery (via_query via)
unfolding via_query
via_query-IsQuery [] = tt
via_query-IsQuery (v ∷ via) = refl

-- What is read in the paths.
abbrev pub ClientPaths :
    Client
    → List ℕ
    → List ℕ
    → List ℕ
    → List (List ℕ)
    → PresenceState
    → Option (List ℕ)
    → Body
    → Type 0
ClientPaths c kind id reason via state status_msg req =
    (read_path (get_tags c id).endpoint
      ≡ in_client (codes "user" ∷ (c.user_id.id ∷ (codes "rooms" ∷ (id ∷ (codes "tags" ∷ []))))))
    × (read_path (put_tag c id kind req).endpoint
        ≡ in_client
            (codes "user" ∷ (c.user_id.id ∷ (codes "rooms" ∷ (id ∷ (codes "tags" ∷ (kind ∷ [])))))))
    × (read_path (delete_tag c id kind).endpoint
        ≡ in_client
            (codes "user" ∷ (c.user_id.id ∷ (codes "rooms" ∷ (id ∷ (codes "tags" ∷ (kind ∷ [])))))))
    × (read_path (upload_filter c req).endpoint
        ≡ in_client (codes "user" ∷ (c.user_id.id ∷ (codes "filter" ∷ []))))
    × (read_path (secret_storage_secret c id).endpoint
        ≡ in_client (codes "user" ∷ (c.user_id.id ∷ (codes "account_data" ∷ (id ∷ [])))))
    × (read_path (upload_secret_storage_secret c id req).endpoint
        ≡ in_client (codes "user" ∷ (c.user_id.id ∷ (codes "account_data" ∷ (id ∷ [])))))
    × (read_path (secret_storage_key c id).endpoint
        ≡ in_client (
            codes "user"
            ∷ (c.user_id.id
                ∷ (codes "account_data" ∷ ((codes "m.secret_storage.key." ++ id) ∷ [])))))
    × (read_path (upload_secret_storage_key c id req).endpoint
        ≡ in_client (
            codes "user"
            ∷ (c.user_id.id
                ∷ (codes "account_data" ∷ ((codes "m.secret_storage.key." ++ id) ∷ [])))))
    × (read_path (set_secret_storage_default_key c id).endpoint
        ≡ in_client (
            codes "user"
            ∷ (c.user_id.id
                ∷ (codes "account_data" ∷ (codes "m.secret_storage.default_key" ∷ [])))))
    × (read_path (set_avatar_url c id).endpoint
        ≡ in_client (codes "profile" ∷ (c.user_id.id ∷ (codes "avatar_url" ∷ []))))
    × (read_path (set_displayname c id).endpoint
        ≡ in_client (codes "profile" ∷ (c.user_id.id ∷ (codes "displayname" ∷ []))))
    × (read_path (get_profile id).endpoint ≡ in_client (codes "profile" ∷ (id ∷ [])))
    × (read_path (get_avatar_url id).endpoint
        ≡ in_client (codes "profile" ∷ (id ∷ (codes "avatar_url" ∷ []))))
    × (read_path (presence_status id).endpoint
        ≡ in_client (codes "presence" ∷ (id ∷ (codes "status" ∷ []))))
    × (read_path (put_presence_status c state status_msg).endpoint
        ≡ in_client (codes "presence" ∷ (c.user_id.id ∷ (codes "status" ∷ []))))
    × (read_path (get_device id).endpoint ≡ in_client (codes "devices" ∷ (id ∷ [])))
    × (read_path (set_device_name id kind).endpoint ≡ in_client (codes "devices" ∷ (id ∷ [])))
    × (read_path (send_to_device kind id req).endpoint
        ≡ in_client (codes "sendToDevice" ∷ (kind ∷ (id ∷ []))))
    × (read_path (resolve_room_alias id).endpoint
        ≡ in_client (codes "directory" ∷ (codes "room" ∷ (id ∷ []))))
    × (read_path (add_room_alias id kind).endpoint
        ≡ in_client (codes "directory" ∷ (codes "room" ∷ (id ∷ []))))
    × (read_path (delete_room_alias id).endpoint
        ≡ in_client (codes "directory" ∷ (codes "room" ∷ (id ∷ []))))
    × (read_path (get_room_visibility id).endpoint
        ≡ in_client (codes "directory" ∷ (codes "list" ∷ (codes "room" ∷ (id ∷ [])))))
    × (read_path (put_room_visibility id req).endpoint
        ≡ in_client (codes "directory" ∷ (codes "list" ∷ (codes "room" ∷ (id ∷ [])))))
    × (read_path (join_room id via reason).endpoint ≡ in_client (codes "join" ∷ (id ∷ [])))
    × (read_path (knock_room id via reason).endpoint ≡ in_client (codes "knock" ∷ (id ∷ [])))

read_path-client :
    (c : Client) (kind id reason : List ℕ) (via : List (List ℕ)) (state : PresenceState)
    (status_msg : Option (List ℕ)) (req : Body)
    → AreBytes c.user_id.id
    → AreBytes kind
    → AreBytes id
    → ClientPaths c kind id reason via state status_msg req
unfolding get_tags put_tag delete_tag upload_filter secret_storage_secret
    upload_secret_storage_secret secret_storage_key upload_secret_storage_key
    set_secret_storage_default_key set_avatar_url set_displayname get_profile get_avatar_url
    presence_status put_presence_status get_device set_device_name send_to_device resolve_room_alias
    add_room_alias delete_room_alias get_room_visibility put_room_visibility join_room knock_room
    is_kept
read_path-client c kind id reason via state status_msg req n k l = (
  read_path-plain_path
      (of_client (
        word (codes "user")
        ∷ (given c.user_id.id ∷ (word (codes "rooms") ∷ (given id ∷ (word (codes "tags") ∷ []))))))
      (ground arith),
  read_path-plain_path
      (of_client (
        word (codes "user")
        ∷ (given c.user_id.id
            ∷ (word (codes "rooms") ∷ (given id ∷ (word (codes "tags") ∷ (given kind ∷ [])))))))
      (ground arith),
  read_path-plain_path
      (of_client (
        word (codes "user")
        ∷ (given c.user_id.id
            ∷ (word (codes "rooms") ∷ (given id ∷ (word (codes "tags") ∷ (given kind ∷ [])))))))
      (ground arith),
  read_path-plain_path
      (of_client (word (codes "user") ∷ (given c.user_id.id ∷ (word (codes "filter") ∷ []))))
      (ground arith),
  read_path-plain_path
      (of_client (
        word (codes "user")
        ∷ (given c.user_id.id ∷ (word (codes "account_data") ∷ (given id ∷ [])))))
      (ground arith),
  read_path-plain_path
      (of_client (
        word (codes "user")
        ∷ (given c.user_id.id ∷ (word (codes "account_data") ∷ (given id ∷ [])))))
      (ground arith),
  read_path-plain_path
      (of_client (
        word (codes "user")
        ∷ (given c.user_id.id
            ∷ (word (codes "account_data") ∷ (joined (codes "m.secret_storage.key.") id ∷ [])))))
      (ground arith),
  read_path-plain_path
      (of_client (
        word (codes "user")
        ∷ (given c.user_id.id
            ∷ (word (codes "account_data") ∷ (joined (codes "m.secret_storage.key.") id ∷ [])))))
      (ground arith),
  read_path-plain_path
      (of_client (
        word (codes "user")
        ∷ (given c.user_id.id
            ∷ (word (codes "account_data") ∷ (word (codes "m.secret_storage.default_key") ∷ [])))))
      (ground arith),
  read_path-plain_path
      (of_client (word (codes "profile") ∷ (given c.user_id.id ∷ (word (codes "avatar_url") ∷ []))))
      (ground arith),
  read_path-plain_path
      (of_client
        (word (codes "profile") ∷ (given c.user_id.id ∷ (word (codes "displayname") ∷ []))))
      (ground arith),
  read_path-plain_path (of_client (word (codes "profile") ∷ (given id ∷ []))) (ground arith),
  read_path-plain_path
      (of_client (word (codes "profile") ∷ (given id ∷ (word (codes "avatar_url") ∷ []))))
      (ground arith),
  read_path-plain_path
      (of_client (word (codes "presence") ∷ (given id ∷ (word (codes "status") ∷ []))))
      (ground arith),
  read_path-plain_path
      (of_client (word (codes "presence") ∷ (given c.user_id.id ∷ (word (codes "status") ∷ []))))
      (ground arith),
  read_path-plain_path (of_client (word (codes "devices") ∷ (given id ∷ []))) (ground arith),
  read_path-plain_path (of_client (word (codes "devices") ∷ (given id ∷ []))) (ground arith),
  read_path-plain_path (of_client (word (codes "sendToDevice") ∷ (given kind ∷ (given id ∷ []))))
      (ground arith),
  read_path-plain_path
      (of_client (word (codes "directory") ∷ (word (codes "room") ∷ (given id ∷ []))))
      (ground arith),
  read_path-plain_path
      (of_client (word (codes "directory") ∷ (word (codes "room") ∷ (given id ∷ []))))
      (ground arith),
  read_path-plain_path
      (of_client (word (codes "directory") ∷ (word (codes "room") ∷ (given id ∷ []))))
      (ground arith),
  read_path-plain_path
      (of_client (
        word (codes "directory") ∷ (word (codes "list") ∷ (word (codes "room") ∷ (given id ∷ [])))))
      (ground arith),
  read_path-plain_path
      (of_client (
        word (codes "directory") ∷ (word (codes "list") ∷ (word (codes "room") ∷ (given id ∷ [])))))
      (ground arith),
  read_path-write_path (of_client (word (codes "join") ∷ (given id ∷ []))) (via_query via)
      (ground arith) (via_query-IsQuery via),
  read_path-write_path (of_client (word (codes "knock") ∷ (given id ∷ []))) (via_query via)
      (ground arith) (via_query-IsQuery via),
)

-- A server that splits the path of such a call at its slashes and decodes the parts reads the words of the endpoint
-- and the arguments in their places, whatever bytes the arguments are. The query behind the path, with the servers to
-- join through, the rules around a push rule or the version of a key backup, is no part of it. The calls are those of
-- `ClientPaths` and `RulePaths`: on tags, filters, secrets and their keys, profiles, presence, devices, aliases, the
-- visibility of rooms, rooms to join, push rules and the key backup. The account data of a user or a room are not among
-- them, since their type is not encoded.
pub read_path-users :
    (c : Client) (scope kind id before after reason : List ℕ) (via : List (List ℕ))
    (state : PresenceState) (status_msg : Option (List ℕ)) (enabled : Bool) (req : Body)
    → AreBytes c.user_id.id
    → AreBytes scope
    → AreBytes kind
    → AreBytes id
    → ClientPaths c kind id reason via state status_msg req
      × RulePaths scope kind id before after enabled req
read_path-users c scope kind id before after reason via state status_msg enabled req n h k l = (
  read_path-client c kind id reason via state status_msg req n k l,
  read_path-rules scope kind id before after enabled req h k l,
)
