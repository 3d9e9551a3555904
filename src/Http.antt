-- ===== src/Http.antt =====
-- include/mtxclient/http/client.hpp and lib/http/client.cpp: the client's own state, and the request that
-- it hands to coeurl. A string is a list of bytes.
pub mod Params
pub mod Rooms
pub mod Membership
pub mod Users
pub mod Push
pub mod Directory
pub mod Keys
pub mod Replies
pub mod Media
pub mod Requests
pub mod Account
pub mod Uia
pub mod Server
pub mod Paths
pub mod Session
pub mod Fallbacks
mod Examples
pub mod Tasks
use mtxclient.Shared.{
  ℕ, zero, suc, ◌+◌, ◌/◌, ◌%◌, ℤ, pos, negsuc, Bool, true, false, not, ◌&&◌, List, [], ◌∷◌, ◌+++◌,
  Option, none, some, ltb, if◌then◌else◌, codes,
}
use mtxclient.Identifiers.{Identifier}

pub record Client : Type 0 where
  pub protocol : List ℕ
  pub server : List ℕ
  pub access_token : List ℕ
  pub user_id : Identifier
  pub device_id : List ℕ
  pub next_batch_token : List ℕ
  pub port : ℕ

abbrev pub is_empty : List ℕ → Bool
is_empty [] = true
is_empty (c ∷ s) = false

-- The digits of `n`, at most as many as the fuel, before those that are written already.
unfoldable pub digits : ℕ → ℕ → List ℕ → List ℕ
digits zero n written = written
digits (suc fuel) n written =
    let rest = digits fuel (n / 10) ((n % 10 + 48) ∷ written) in
    if ltb n 10 then (n + 48) ∷ written else rest

-- A number of 64 bits has twenty digits at most.
abbrev pub max_digits : ℕ
max_digits = 20

-- `std::to_string` of an unsigned number
abbrev pub decimal : ℕ → List ℕ
decimal n = digits max_digits n []

-- `std::to_string` of a signed number
abbrev pub signed_decimal : ℤ → List ℕ
signed_decimal (pos n) = decimal n
signed_decimal (negsuc n) = b'-' ∷ decimal (suc n)

-- A JSON value that the client writes into a body; `payload` is one that the caller's `to_json` makes, or a
-- text that is sent as it is. The fields of an object have distinct names, so their order is of no account.
mutual
  pub data Body : Type 0 where
    payload : List ℕ → Body
    string : List ℕ → Body
    strings : List (List ℕ) → Body
    number : ℤ → Body
    boolean : Bool → Body
    object : Fields → Body

  pub data Fields : Type 0 where
    end : Fields
    field : List ℕ → Body → Fields → Fields

pub data Method : Type 0 where
  get : Method
  put : Method
  post : Method
  delete_ : Method

-- The arguments of `get`, `put`, `post` and `delete_`, less the callback.
pub record Call : Type 0 where
  pub method : Method
  pub endpoint : List ℕ
  pub endpoint_namespace : List ℕ
  pub body : Option Body
  pub content_type : List ℕ
  pub requires_auth : Bool
  pub num_redirects : ℕ

abbrev pub matrix_namespace : List ℕ
matrix_namespace = codes "/_matrix"

abbrev pub json_type : List ℕ
json_type = codes "application/json"

-- `get` at its default arguments
abbrev pub get_call : List ℕ → Call
get_call endpoint = record {
  method = get;
  endpoint = endpoint;
  endpoint_namespace = matrix_namespace;
  body = none;
  content_type = [];
  requires_auth = true;
  num_redirects = 0;
}

-- `put` at its default arguments
abbrev pub put_call : List ℕ → Body → Call
put_call endpoint req = record {
  method = put;
  endpoint = endpoint;
  endpoint_namespace = matrix_namespace;
  body = some req;
  content_type = json_type;
  requires_auth = true;
  num_redirects = 0;
}

-- `post` at its default arguments
abbrev pub post_call : List ℕ → Body → Call
post_call endpoint req = record (put_call endpoint req) { method = post }

-- `delete_` at its default arguments
abbrev pub delete_call : List ℕ → Call
delete_call endpoint = record (get_call endpoint) { method = delete_ }

-- `endpoint_to_url`
unfoldable pub endpoint_to_url : Client → List ℕ → List ℕ → List ℕ
endpoint_to_url c endpoint endpoint_namespace =
    c.protocol
    +++ codes "://"
    +++ c.server
    +++ b':' ∷ (decimal c.port +++ endpoint_namespace +++ endpoint)

-- `server_url`
unfoldable pub server_url : Client → List ℕ
server_url c = c.protocol +++ codes "://" +++ c.server +++ b':' ∷ decimal c.port

abbrev pub user_agent : List ℕ × List ℕ
user_agent = (codes "User-Agent", codes "mtxclient v0.9.2")

-- `prepare_headers`
unfoldable pub prepare_headers : Client → Bool → List (List ℕ × List ℕ)
prepare_headers c requires_auth =
    if requires_auth && not (is_empty c.access_token)
    then user_agent ∷ ((codes "Authorization", codes "Bearer " +++ c.access_token) ∷ [])
    else user_agent ∷ []

-- What coeurl is given.
pub record Request : Type 0 where
  pub method : Method
  pub url : List ℕ
  pub body : Option Body
  pub content_type : List ℕ
  pub headers : List (List ℕ × List ℕ)
  pub num_redirects : ℕ

-- The type-erased `get`, `put` and `post`, and `delete_`.
unfoldable pub send : Client → Call → Request
send c call = record {
  method = call.method;
  url = endpoint_to_url c call.endpoint call.endpoint_namespace;
  body = call.body;
  content_type = call.content_type;
  headers = prepare_headers c call.requires_auth;
  num_redirects = call.num_redirects;
}
