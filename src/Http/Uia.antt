-- ===== src/Http/Uia.antt =====
-- include/mtxclient/http/client.hpp, `UIAHandler`, and the requests of lib/http/client.cpp that it repeats
-- until the server is content with the authentication.
pub mod Calls
use mtxclient.Shared.{
  ℕ, Bool, true, false, ◌&&◌, ◌||◌, bytes_eq, List, [], ◌∷◌, Option, none, some, ◌==◌,
  if◌then◌else◌, codes,
}
use mtxclient.Http.Requests.{text_field, text_field_if}
use mtxclient.Http.Replies.{ClientError}
use mtxclient.Http.{Call, Body, payload, strings, object, Fields, end, field, post_call}

-- `empty()` of a JSON value: null, and an object or an array without elements.
unfoldable pub is_empty_json : Body → Bool
is_empty_json (object end) = true
is_empty_json (strings []) = true
is_empty_json (payload text) =
    bytes_eq text (codes "null") || bytes_eq text (codes "{}") || bytes_eq text (codes "[]")
is_empty_json _ = false

-- The JSON that `{}` makes, with which the first request is sent.
abbrev pub no_auth : Body
no_auth = payload (codes "null")

unfoldable pub put_last : List ℕ → Body → Fields → Fields
put_last key value end = field key value end
put_last key value (field other held fields) = field other held (put_last key value fields)

-- `if (!auth.empty()) request["auth"] = auth;`
unfoldable pub with_auth : Fields → Body → Fields
with_auth fields auth = if is_empty_json auth then fields else put_last (codes "auth") auth fields

-- The request of `registration`, which is kept for every stage.
unfoldable pub registration_request : List ℕ → List ℕ → List ℕ → Fields
registration_request user pass initial_device_display_name = text_field (codes "username") user (
    text_field (codes "password") pass
      (text_field_if (codes "initial_device_display_name") initial_device_display_name end))

-- The `next_` of `registration`.
unfoldable pub registration : List ℕ → List ℕ → List ℕ → Body → Call
registration user pass initial_device_display_name auth =
    record (post_call (codes "/client/v3/register")
      (object (with_auth (registration_request user pass initial_device_display_name) auth))) {
        requires_auth = false;
      }

-- The `next_` of `delete_device`, `delete_devices` and `device_signing_upload`.
unfoldable pub delete_device : List ℕ → Body → Call
delete_device device_id auth =
    post_call (codes "/client/v3/delete_devices")
      (object (with_auth (field (codes "devices") (strings (device_id ∷ [])) end) auth))

unfoldable pub delete_devices : List (List ℕ) → Body → Call
delete_devices device_ids auth =
    post_call (codes "/client/v3/delete_devices")
      (object (with_auth (field (codes "devices") (strings device_ids) end) auth))

-- Without a key there is nothing that makes the JSON an object.
abbrev pub object_or_null : Fields → Body
object_or_null end = payload (codes "null")
object_or_null (field key value fields) = object (field key value fields)

unfoldable pub device_signing_upload : Fields → Body → Call
device_signing_upload device_keys auth =
    post_call (codes "/client/v3/keys/device_signing/upload")
      (object_or_null (with_auth device_keys auth))

module _ {κ} {E : Type κ} where
  -- Whether the callback of `registration` prompts for the next stage.
  unfoldable pub prompts : Option (ClientError E) → Bool
  prompts none = false
  prompts (some e) = e.status_code == 401

  -- Whether the callbacks of the others do, where the first argument says whether an error lists flows.
  unfoldable pub prompts_with_flows : (E → Bool) → Option (ClientError E) → Bool
  prompts_with_flows has_flows none = false
  prompts_with_flows has_flows (some e) = e.status_code == 401 && has_flows e.matrix_error

  -- The calls of a handler, at the errors that come back and the authentications that `next` is given.
  unfoldable pub uia_calls :
      (Body → Call)
      → (Option (ClientError E) → Bool)
      → Body
      → List (Option (ClientError E) × Body)
      → List Call
  uia_calls next_ is_prompted auth [] = next_ auth ∷ []
  uia_calls next_ is_prompted auth ((err, next_auth) ∷ turns) =
      let rest = uia_calls next_ is_prompted next_auth turns in
      if is_prompted err then next_ auth ∷ rest else next_ auth ∷ []
