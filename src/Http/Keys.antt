-- ===== src/Http/Keys.antt =====
-- lib/http/client.cpp: device keys, the key backup and the secret storage.
use mtxclient.Shared.{ℕ, not, List, [], ◌∷◌, ◌+++◌, Option, none, some, codes}
use mtxclient.Utils.{url_encode, query_params}
use mtxclient.Http.Params.{emplace_if}
use mtxclient.Http.{
  Client, Call, Body, payload, string, object, end, field, is_empty, get_call, put_call, post_call,
}

unfoldable pub upload_keys : Body → Call
upload_keys req = post_call (codes "/client/v3/keys/upload") req

unfoldable pub keys_signatures_upload : Body → Call
keys_signatures_upload req = post_call (codes "/client/v3/keys/signatures/upload") req

unfoldable pub query_keys : Body → Call
query_keys req = post_call (codes "/client/v3/keys/query") req

unfoldable pub claim_keys : Body → Call
claim_keys req = post_call (codes "/client/v3/keys/claim") req

unfoldable pub key_changes : List ℕ → List ℕ → Call
key_changes from to =
    let params = emplace_if (not (is_empty from)) (codes "from") from [] in
    get_call (
      codes "/client/v3/keys/changes?"
      +++ query_params (emplace_if (not (is_empty to)) (codes "to") to params))

-- `backup_version` without a version
unfoldable pub latest_backup_version : Call
latest_backup_version = get_call (codes "/client/v3/room_keys/version")

unfoldable pub backup_version : List ℕ → Call
backup_version version = get_call (codes "/client/v3/room_keys/version/" +++ url_encode version)

unfoldable pub update_backup_version : List ℕ → Body → Call
update_backup_version version req =
    put_call (codes "/client/v3/room_keys/version/" +++ url_encode version) req

-- The body of `post_backup_version`; `none` where the parser throws.
unfoldable pub backup_body : List ℕ → Option (List ℕ) → Option Call
backup_body algorithm none = none
backup_body algorithm (some auth_data) = some (
    post_call (codes "/client/v3/room_keys/version") (
      object (
        field (codes "algorithm") (string algorithm)
          (field (codes "auth_data") (payload auth_data) end))))

-- The argument is nlohmann's parser.
unfoldable pub post_backup_version : (List ℕ → Option (List ℕ)) → List ℕ → List ℕ → Option Call
post_backup_version parse algorithm auth_data = backup_body algorithm (parse auth_data)

-- The three overloads of `room_keys`.
unfoldable pub room_keys : List ℕ → Call
room_keys version =
    get_call (codes "/client/v3/room_keys/keys?" +++ query_params ((codes "version", version) ∷ []))

unfoldable pub room_keys_of_room : List ℕ → List ℕ → Call
room_keys_of_room version room_id = get_call (
    codes "/client/v3/room_keys/keys/"
    +++ url_encode room_id
    +++ codes "?"
    +++ query_params ((codes "version", version) ∷ []))

unfoldable pub room_keys_of_session : List ℕ → List ℕ → List ℕ → Call
room_keys_of_session version room_id session_id = get_call (
    codes "/client/v3/room_keys/keys/"
    +++ url_encode room_id
    +++ codes "/"
    +++ url_encode session_id
    +++ codes "?"
    +++ query_params ((codes "version", version) ∷ []))

-- The three overloads of `put_room_keys`.
unfoldable pub put_room_keys : List ℕ → Body → Call
put_room_keys version keys =
    put_call (codes "/client/v3/room_keys/keys?" +++ query_params ((codes "version", version) ∷ []))
      keys

unfoldable pub put_room_keys_of_room : List ℕ → List ℕ → Body → Call
put_room_keys_of_room version room_id keys =
    put_call
      (codes "/client/v3/room_keys/keys/"
        +++ url_encode room_id
        +++ codes "?"
        +++ query_params ((codes "version", version) ∷ []))
      keys

unfoldable pub put_room_keys_of_session : List ℕ → List ℕ → List ℕ → Body → Call
put_room_keys_of_session version room_id session_id keys =
    put_call
      (codes "/client/v3/room_keys/keys/"
        +++ url_encode room_id
        +++ codes "/"
        +++ url_encode session_id
        +++ codes "?"
        +++ query_params ((codes "version", version) ∷ []))
      keys

unfoldable pub secret_storage_secret : Client → List ℕ → Call
secret_storage_secret c secret_id = get_call (
    codes "/client/v3/user/"
    +++ url_encode c.user_id.id
    +++ codes "/account_data/"
    +++ url_encode secret_id)

unfoldable pub secret_storage_key : Client → List ℕ → Call
secret_storage_key c key_id = get_call (
    codes "/client/v3/user/"
    +++ url_encode c.user_id.id
    +++ codes "/account_data/m.secret_storage.key."
    +++ url_encode key_id)

unfoldable pub upload_secret_storage_secret : Client → List ℕ → Body → Call
upload_secret_storage_secret c secret_id secret =
    put_call
      (codes "/client/v3/user/"
        +++ url_encode c.user_id.id
        +++ codes "/account_data/"
        +++ url_encode secret_id)
      secret

unfoldable pub upload_secret_storage_key : Client → List ℕ → Body → Call
upload_secret_storage_key c key_id desc =
    put_call
      (codes "/client/v3/user/"
        +++ url_encode c.user_id.id
        +++ codes "/account_data/m.secret_storage.key."
        +++ url_encode key_id)
      desc

unfoldable pub set_secret_storage_default_key : Client → List ℕ → Call
set_secret_storage_default_key c key_id =
    put_call
      (codes "/client/v3/user/"
        +++ url_encode c.user_id.id
        +++ codes "/account_data/m.secret_storage.default_key")
      (object (field (codes "key") (string key_id) end))

unfoldable pub get_turn_server : Call
get_turn_server = get_call (codes "/client/v3/voip/turnServer")
