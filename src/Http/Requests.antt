-- ===== src/Http/Requests.antt =====
-- lib/structs/requests.cpp: the bodies of some requests. Keys, pushers and rooms hold JSON of the caller.
use mtxclient.Shared.{
  ℕ, ℤ, pos, negsuc, Bool, true, false, not, ◌&&◌, List, Option, none, some, ltb, if◌then◌else◌,
  codes,
}
use mtxclient.Http.{Body, string, number, boolean, object, Fields, end, field, is_empty}

-- An assignment to a field in front of others, and one under the test that the text is not empty.
abbrev pub text_field : List ℕ → List ℕ → Fields → Fields
text_field key text fields = field key (string text) fields

abbrev pub text_field_if : List ℕ → List ℕ → Fields → Fields
text_field_if key text fields = if is_empty text then fields else field key (string text) fields

pub data LoginIdentifier : Type 0 where
  user_identifier : List ℕ → LoginIdentifier
  thirdparty : List ℕ → List ℕ → LoginIdentifier
  phone_number : List ℕ → List ℕ → LoginIdentifier

pub record Login : Type 0 where
  pub type : List ℕ
  pub identifier : LoginIdentifier
  pub token : List ℕ
  pub password : List ℕ
  pub device_id : List ℕ
  pub initial_device_display_name : List ℕ

abbrev pub identifier_fields : LoginIdentifier → Fields
identifier_fields (user_identifier user) =
    text_field (codes "type") (codes "m.id.user") (text_field (codes "user") user end)
identifier_fields (thirdparty medium address) =
    text_field (codes "type") (codes "m.id.thirdparty")
      (text_field (codes "medium") medium (text_field (codes "address") address end))
identifier_fields (phone_number country phone) =
    text_field (codes "type") (codes "m.id.phone")
      (text_field (codes "country") country (text_field (codes "phone") phone end))

-- `to_json` of `Login`
unfoldable pub login_fields : Login → Fields
login_fields req =
    let fields =
      field (codes "identifier") (object (identifier_fields req.identifier))
        (text_field (codes "type") req.type end) in
    let fields =
      text_field_if (codes "initial_device_display_name") req.initial_device_display_name fields in
    let fields = text_field_if (codes "device_id") req.device_id fields in
    let fields = text_field_if (codes "password") req.password fields in
    text_field_if (codes "token") req.token fields

-- `to_json` of `RequestEmailToken`, `RequestMSISDNToken` and `IdentitySubmitToken`
unfoldable pub email_token_body : List ℕ → List ℕ → ℤ → Body
email_token_body client_secret email send_attempt = object (
    text_field (codes "client_secret") client_secret
      (text_field (codes "email") email (field (codes "send_attempt") (number send_attempt) end)))

unfoldable pub msisdn_token_body : List ℕ → List ℕ → List ℕ → ℤ → Body
msisdn_token_body client_secret country number_of send_attempt = object (
    text_field (codes "client_secret") client_secret (
      text_field (codes "country") country (
        text_field (codes "phone_number") number_of
          (field (codes "send_attempt") (number send_attempt) end))))

unfoldable pub submit_token_body : List ℕ → List ℕ → List ℕ → Body
submit_token_body sid client_secret token = object (
    text_field (codes "sid") sid
      (text_field (codes "client_secret") client_secret (text_field (codes "token") token end)))

pub record PublicRooms : Type 0 where
  pub limit : ℤ
  pub since : List ℕ
  pub generic_search_term : List ℕ
  pub include_all_networks : Bool
  pub third_party_instance_id : List ℕ

abbrev pub limit_before : ℤ → Fields → Fields
limit_before (pos n) fields =
    if ltb 0 n then field (codes "limit") (number (pos n)) fields else fields
limit_before (negsuc n) fields = fields

-- The fields before the choice of the networks.
abbrev pub public_rooms_fields : PublicRooms → Fields → Fields
public_rooms_fields req fields =
    let filter = object (text_field (codes "generic_search_term") req.generic_search_term end) in
    let fields =
      if is_empty req.generic_search_term then fields else field (codes "filter") filter fields in
    limit_before req.limit (text_field_if (codes "since") req.since fields)

-- `to_json` of `PublicRooms`; `none` where it throws.
unfoldable pub public_rooms_body : PublicRooms → Option Body
public_rooms_body req =
    if req.include_all_networks && not (is_empty req.third_party_instance_id)
    then none
    else if not (is_empty req.third_party_instance_id)
    then some (
        object (
          public_rooms_fields req (
            text_field (codes "third_party_instance_id") req.third_party_instance_id
              (field (codes "include_all_networks") (boolean false) end))))
    else some
        (object (public_rooms_fields req (field (codes "include_all_networks") (boolean true) end)))
