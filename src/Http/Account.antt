-- ===== src/Http/Account.antt =====
-- lib/http/client.cpp: logging in and out, and registering, with what their callbacks change in the client.
use mtxclient.Shared.{ℕ, false, List, [], ◌∷◌, ◌+++◌, Option, none, some, if◌then◌else◌, codes}
use mtxclient.Identifiers.{Identifier}
use mtxclient.Utils.{url_encode, query_params}
use mtxclient.Http.Requests.{Login, user_identifier, login_fields}
use mtxclient.Http.Replies.{ClientError}
use mtxclient.Http.{
  Client, Call, Body, payload, object, end, Request, is_empty, decimal, json_type, get_call,
  post_call, post, prepare_headers,
}

-- `clear`, which keeps the user and the protocol.
unfoldable pub clear : Client → Client
clear c = record c {
  device_id = [];
  access_token = [];
  next_batch_token = [];
  server = [];
  port = 443;
}

-- `login` of a request
unfoldable pub login : Login → Call
login req = record (post_call (codes "/client/v3/login") (object (login_fields req))) {
  requires_auth = false;
}

-- `login` of a user's name, password and device name, which is empty in the shorter overload.
unfoldable pub login_password : List ℕ → List ℕ → List ℕ → Call
login_password user password device_name = login (record {
  type = codes "m.login.password";
  identifier = user_identifier user;
  token = [];
  password = password;
  device_id = [];
  initial_device_display_name = device_name;
})

-- What the callbacks use of `responses::Login` and `responses::Register`.
pub record Session : Type 0 where
  pub user_id : Identifier
  pub access_token : List ℕ
  pub device_id : List ℕ

-- The state behind the callbacks of `login` and of the second `registration`, at the error and the response.
unfoldable pub logged_in {κ} : {E : Type κ} → Client → Option (ClientError E) → Session → Client
logged_in c none resp = if is_empty resp.access_token then c else record c {
  user_id = resp.user_id;
  device_id = resp.device_id;
  access_token = resp.access_token;
}
logged_in c (some err) resp = c

unfoldable pub get_login : Call
get_login = record (get_call (codes "/client/v3/login")) { requires_auth = false }

-- The suffix with the identity provider, where there is one.
abbrev pub idp_suffix : List ℕ → List ℕ
idp_suffix idp = if is_empty idp then idp else b'/' ∷ url_encode idp

unfoldable pub login_sso_redirect : Client → List ℕ → List ℕ → List ℕ
login_sso_redirect c redirect_url idp =
    c.protocol
    +++ codes "://"
    +++ c.server
    +++ codes ":"
    +++ decimal c.port
    +++ codes "/_matrix/client/v3/login/sso/redirect"
    +++ idp_suffix idp
    +++ codes "?"
    +++ query_params ((codes "redirectUrl", redirect_url) ∷ [])

unfoldable pub well_known : Call
well_known = record (get_call (codes "/matrix/client")) {
  requires_auth = false;
  endpoint_namespace = codes "/.well-known";
  num_redirects = 30;
}

-- `to_json` of `requests::Empty` writes nothing, so that the body is JSON's null.
unfoldable pub logout : Call
logout = post_call (codes "/client/v3/logout") (payload (codes "null"))

-- The state behind the callback of `logout`.
unfoldable pub logged_out {κ} : {E : Type κ} → Client → Option (ClientError E) → Client
logged_out c none = clear c
logged_out c (some err) = c

-- The `registration` that asks for the flows alone.
unfoldable pub registration_flows : Call
registration_flows = record (post_call (codes "/client/v3/register") (object end)) {
  requires_auth = false;
}

unfoldable pub registration_token_validity : List ℕ → Call
registration_token_validity token = get_call (
    codes "/client/v1/register/m.login.registration_token/validity?"
    +++ query_params ((codes "token", token) ∷ []))

unfoldable pub register_email_request_token : Body → Call
register_email_request_token r = post_call (codes "/client/v3/register/email/requestToken") r

unfoldable pub register_username_available : List ℕ → Call
register_username_available username =
    get_call (codes "/client/v3/register/available?username=" +++ url_encode username)

unfoldable pub verify_email_request_token : Body → Call
verify_email_request_token r = post_call (codes "/client/v3/account/password/email/requestToken") r

unfoldable pub register_phone_request_token : Body → Call
register_phone_request_token r = post_call (codes "/client/v3/register/msisdn/requestToken") r

unfoldable pub verify_phone_request_token : Body → Call
verify_phone_request_token r = post_call (codes "/client/v3/account/password/msisdn/requestToken") r

-- `validate_submit_token`, to a URL that the server chose, and without the token.
unfoldable pub validate_submit_token : Client → List ℕ → Body → Request
validate_submit_token c url r = record {
  method = post;
  url = url;
  body = some r;
  content_type = json_type;
  headers = prepare_headers c false;
  num_redirects = 0;
}
