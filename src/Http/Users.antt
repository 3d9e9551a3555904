-- ===== src/Http/Users.antt =====
-- lib/http/client.cpp and client_impl.hpp: profiles, presence, tags, account data and devices of users.
use mtxclient.Shared.{ℕ, ℤ, pos, negsuc, List, ◌+++◌, Option, none, some, codes}
use mtxclient.Utils.{url_encode}
use mtxclient.Http.{
  Client, Call, Body, string, number, object, Fields, end, field, get_call, put_call, post_call,
  delete_call,
}

unfoldable pub set_avatar_url : Client → List ℕ → Call
set_avatar_url c avatar_url =
    put_call (codes "/client/v3/profile/" +++ url_encode c.user_id.id +++ codes "/avatar_url")
      (object (field (codes "avatar_url") (string avatar_url) end))

unfoldable pub set_displayname : Client → List ℕ → Call
set_displayname c displayname =
    put_call (codes "/client/v3/profile/" +++ url_encode c.user_id.id +++ codes "/displayname")
      (object (field (codes "displayname") (string displayname) end))

unfoldable pub get_profile : List ℕ → Call
get_profile user_id = get_call (codes "/client/v3/profile/" +++ url_encode user_id)

unfoldable pub get_avatar_url : List ℕ → Call
get_avatar_url user_id =
    get_call (codes "/client/v3/profile/" +++ url_encode user_id +++ codes "/avatar_url")

unfoldable pub get_tags : Client → List ℕ → Call
get_tags c room_id = get_call (
    codes "/client/v3/user/"
    +++ url_encode c.user_id.id
    +++ codes "/rooms/"
    +++ url_encode room_id
    +++ codes "/tags")

unfoldable pub put_tag : Client → List ℕ → List ℕ → Body → Call
put_tag c room_id tag_name tag =
    put_call
      (codes "/client/v3/user/"
        +++ url_encode c.user_id.id
        +++ codes "/rooms/"
        +++ url_encode room_id
        +++ codes "/tags/"
        +++ url_encode tag_name)
      tag

unfoldable pub delete_tag : Client → List ℕ → List ℕ → Call
delete_tag c room_id tag_name = delete_call (
    codes "/client/v3/user/"
    +++ url_encode c.user_id.id
    +++ codes "/rooms/"
    +++ url_encode room_id
    +++ codes "/tags/"
    +++ url_encode tag_name)

unfoldable pub presence_status : List ℕ → Call
presence_status user_id =
    get_call (codes "/client/v3/presence/" +++ url_encode user_id +++ codes "/status")

pub data PresenceState : Type 0 where
  offline : PresenceState
  unavailable : PresenceState
  online : PresenceState

-- `presence::to_string`
abbrev pub presence_to_string : PresenceState → List ℕ
presence_to_string offline = codes "offline"
presence_to_string unavailable = codes "unavailable"
presence_to_string online = codes "online"

abbrev pub status_field : Option (List ℕ) → Fields
status_field none = end
status_field (some status_msg) = field (codes "status_msg") (string status_msg) end

unfoldable pub put_presence_status : Client → PresenceState → Option (List ℕ) → Call
put_presence_status c state status_msg =
    put_call (codes "/client/v3/presence/" +++ url_encode c.user_id.id +++ codes "/status") (
      object
        (field (codes "presence") (string (presence_to_string state)) (status_field status_msg)))

unfoldable pub upload_filter : Client → Body → Call
upload_filter c j =
    post_call (codes "/client/v3/user/" +++ url_encode c.user_id.id +++ codes "/filter") j

-- The account data's type is written as it is.
unfoldable pub put_room_account_data : Client → List ℕ → List ℕ → Body → Call
put_room_account_data c room_id type req =
    put_call
      (codes "/client/v3/user/"
        +++ url_encode c.user_id.id
        +++ codes "/rooms/"
        +++ url_encode room_id
        +++ codes "/account_data/"
        +++ type)
      req

unfoldable pub put_account_data : Client → List ℕ → Body → Call
put_account_data c type req =
    put_call
      (codes "/client/v3/user/" +++ url_encode c.user_id.id +++ codes "/account_data/" +++ type) req

unfoldable pub get_room_account_data : Client → List ℕ → List ℕ → Call
get_room_account_data c room_id type = get_call (
    codes "/client/v3/user/"
    +++ url_encode c.user_id.id
    +++ codes "/rooms/"
    +++ url_encode room_id
    +++ codes "/account_data/"
    +++ type)

unfoldable pub get_account_data : Client → List ℕ → Call
get_account_data c type =
    get_call
      (codes "/client/v3/user/" +++ url_encode c.user_id.id +++ codes "/account_data/" +++ type)

unfoldable pub query_devices : Call
query_devices = get_call (codes "/client/v3/devices")

unfoldable pub get_device : List ℕ → Call
get_device device_id = get_call (codes "/client/v3/devices/" +++ url_encode device_id)

unfoldable pub set_device_name : List ℕ → List ℕ → Call
set_device_name device_id display_name =
    put_call (codes "/client/v3/devices/" +++ url_encode device_id)
      (object (field (codes "display_name") (string display_name) end))

unfoldable pub send_to_device : List ℕ → List ℕ → Body → Call
send_to_device event_type txn_id req =
    put_call
      (codes "/client/v3/sendToDevice/"
        +++ url_encode event_type
        +++ codes "/"
        +++ url_encode txn_id)
      req

abbrev pub limit_field : ℤ → Fields
limit_field (pos n) = field (codes "limit") (number (pos n)) end
limit_field (negsuc n) = end

unfoldable pub search_user_directory : List ℕ → ℤ → Call
search_user_directory search_term limit =
    post_call (codes "/client/v3/user_directory/search")
      (object (field (codes "search_term") (string search_term) (limit_field limit)))
