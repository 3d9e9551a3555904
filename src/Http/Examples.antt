-- ===== src/Http/Examples.antt =====
-- The client at concrete inputs.
use mtxclient.Shared.{
  ℕ, ◌≡◌, ◌↔◌, ◌⊎◌, refl, inl, inr, true, List, [], ◌∷◌, ◌++◌, map, Option, none, some, ◌==◌, codes,
  arith, AreBytes, All, pos, false, not, ◌&&◌, ◌+++◌, if◌then◌else◌,
}
use mtxclient.Identifiers.{Identifier}
use mtxclient.Utils.{is_kept, url_encode, query_params, more_params}
use mtxclient.Http.{
  Client, Call, Body, strings, object, end, server_url, send, digits, payload, get_call, post,
  is_empty,
}
use mtxclient.Http.Tasks.{Reply}
use mtxclient.Http.Replies.{Reader, ClientError, prepare_callback, delete_callback, text_reader}
use mtxclient.Http.Replies.Results.{IsSuccess, callbacks_iff}
use mtxclient.Http.Server.{set_server, make_client}
use mtxclient.Http.Server.Names.{set_server-server_url}
use mtxclient.Http.Requests.{Login, user_identifier}
use mtxclient.Http.Account.{
  Session, logged_in, logged_out, login, get_login, well_known, registration_flows,
}
use mtxclient.Http.Session.{authorization, authorization-session}
use mtxclient.Http.Session.History.{
  Operation, logs_in, logs_out, sets_port, reads_server, run, HasToken, authorization-run,
}
use mtxclient.Http.Params.{emplace}
use mtxclient.Http.Rooms.{report_event, messages_params, backwards, MessagesOpts, Membership}
use mtxclient.EventTypes.{room_message}
use mtxclient.Http.Users.{online}
use mtxclient.Http.Paths.Rooms.{RoomPaths, read_path-rooms}
use mtxclient.Http.Paths.Users.{ClientPaths, read_path-users}
use mtxclient.Http.Paths.Rules.{RulePaths}
use mtxclient.Http.Params.Queries.{IsParam, read_query, read_query-query_params}
use mtxclient.Http.Media.{original_filename, ThumbOpts, thumbnail_params}
use mtxclient.Http.Media.Filenames.{original_filename-quoted}
use mtxclient.Http.Directory.{is_missing}
use mtxclient.Http.Uia.{
  registration, registration_request, prompts, prompts_with_flows, uia_calls, delete_devices,
  no_auth,
}
use mtxclient.Http.Uia.Calls.{fields_of, seen, auth_of, asks, ends, uia_calls-Stages}

abbrev alice : Identifier
alice = record {
  localpart = codes "alice";
  hostname = codes "example.org";
  id = codes "@alice:example.org";
}

abbrev sample_client : Client
sample_client = record {
  protocol = codes "https";
  server = codes "example.org";
  access_token = codes "secret";
  user_id = alice;
  device_id = codes "ABC";
  next_batch_token = [];
  port = 8448;
}

abbrev sample_errors : Reader ℕ
sample_errors = record { empty = 0; read = λ body. inr 1 }

abbrev sample_error : ClientError ℕ
sample_error = record { matrix_error = 1; error_code = 0; status_code = 401; parse_error = [] }

abbrev sample_reply : Reply
sample_reply = record { headers = []; body = codes "{}"; error_code = 0; status_code = 404 }

server_url_run : server_url sample_client ≡ codes "https://example.org:8448"
unfolding server_url digits
server_url_run = refl

set_server-server_url_example : set_server (server_url sample_client) sample_client ≡ (
  record sample_client { protocol = codes "https"; server = codes "example.org"; port = 8448 },
  true,
)
set_server-server_url_example =
    set_server-server_url sample_client sample_client (inl refl) refl (omega arith)

abbrev dummy_auth : Body
dummy_auth = payload (codes "{\"type\":\"m.login.dummy\"}")

abbrev sample_session : Session
sample_session = record { user_id = alice; access_token = codes "t1"; device_id = codes "D" }

abbrev sample_login : Login
sample_login = record {
  type = codes "m.login.password";
  identifier = user_identifier (codes "alice");
  token = [];
  password = codes "pw";
  device_id = [];
  initial_device_display_name = [];
}

abbrev sample_call : Call
sample_call = get_call (codes "/client/v3/devices")

authorization-session_example :
    (authorization (send (logged_in {E = ℕ} sample_client none sample_session) sample_call).headers
      ≡ some (codes "Bearer t1"))
    × (authorization (send (logged_out {E = ℕ} sample_client none) sample_call).headers ≡ none)
    × (send (logged_in sample_client (some sample_error) sample_session) sample_call
        ≡ send sample_client sample_call)
    × (send (logged_out sample_client (some sample_error)) sample_call
        ≡ send sample_client sample_call)
    × (authorization (send sample_client (login sample_login)).headers ≡ none)
    × (authorization
          (send sample_client (registration (codes "alice") (codes "pw") [] dummy_auth)).headers
        ≡ none)
    × (authorization (send sample_client registration_flows).headers ≡ none)
    × (authorization (send sample_client get_login).headers ≡ none)
    × (authorization (send sample_client well_known).headers ≡ none)
authorization-session_example =
    authorization-session sample_client sample_call sample_session sample_error sample_login
      (codes "alice") (codes "pw") [] dummy_auth refl refl

-- A login, then a new port, a failed logout, and another server.
abbrev sample_history : List (Operation ℕ)
sample_history =
    reads_server (codes "http://example.com")
    ∷ (logs_out (some sample_error) ∷ (sets_port 8080 ∷ (logs_in none sample_session ∷ [])))

authorization-run_example :
    (token : List ℕ) × HasToken sample_history token
    × (authorization
          (send
            (run (make_client (codes "https://example.org") 443).0 sample_history)
            sample_call).headers
        ≡ (if true && not (is_empty token) then some (codes "Bearer " +++ token) else none))
authorization-run_example =
    authorization-run (codes "https://example.org") 443 sample_history sample_call

abbrev room : List ℕ
room = codes "!a/b?c"

abbrev short : List ℕ
short = codes "$e"

room-AreBytes : AreBytes room
room-AreBytes = ground arith

short-AreBytes : AreBytes short
short-AreBytes = ground arith

alice-AreBytes : AreBytes alice.id
alice-AreBytes = ground arith

abbrev sample_messages : MessagesOpts
sample_messages = record {
  room_id = room;
  from = codes "t1";
  to = [];
  filter = [];
  dir = backwards;
  limit = 30;
}

read_path-rooms_example :
    RoomPaths sample_client room short short short [] room_message
      (some Membership.join)
      none
      sample_messages
      true
      30
      1
      (pos 0)
      (object end)
read_path-rooms_example =
    read_path-rooms sample_client room short short short [] room_message (some Membership.join) none
      sample_messages true 30 1 (pos 0) (object end) alice-AreBytes room-AreBytes short-AreBytes
      short-AreBytes short-AreBytes

read_path-users_example :
    ClientPaths sample_client room short [] (codes "example.org" ∷ []) online none (object end)
    × RulePaths short room short [] short false (object end)
read_path-users_example =
    read_path-users sample_client short room short [] short [] (codes "example.org" ∷ []) online
      none false (object end) alice-AreBytes short-AreBytes room-AreBytes short-AreBytes

abbrev sample_params : List (List ℕ × List ℕ)
sample_params = (codes "dir", codes "b") ∷ ((codes "from", codes "a&b=c") ∷ [])

sample_params-AreParams : All IsParam sample_params
unfolding is_kept
sample_params-AreParams = ground arith

read_query-query_params_example : read_query (query_params sample_params) ≡ sample_params
read_query-query_params_example = read_query-query_params sample_params sample_params-AreParams

original_filename-quoted_example :
    (original_filename (codes "attachment; filename=\"cat.png\"; x") ≡ codes "cat.pn")
    × (original_filename (codes "attachment; filename=cat.png") ≡ codes "cat.png")
original_filename-quoted_example = original_filename-quoted (codes "cat.pn") (codes "; x") b'g' refl

callbacks_iff_example :
    (((prepare_callback text_reader sample_errors sample_reply).error ≡ none) ↔ (
      IsSuccess sample_reply
      × (text_reader.read sample_reply.body
          ≡ inr (prepare_callback text_reader sample_errors sample_reply).response)))
    × ((is_missing (prepare_callback text_reader sample_errors sample_reply).error ≡ true) ↔ (
        (sample_reply.error_code ≡ 0)
        × ((sample_reply.status_code ≡ 404) ⊎ (sample_reply.status_code ≡ 400))))
    × ((delete_callback sample_errors 7 8 sample_reply ≡ none) ↔ IsSuccess sample_reply)
callbacks_iff_example = callbacks_iff text_reader sample_errors sample_reply 7 8

abbrev sample_opts : ThumbOpts
sample_opts = record {
  width = 96;
  height = 96;
  method = codes "crop";
  mxc_url = codes "mxc://example.org/abc";
}

abbrev room_ids : Reader (List (List ℕ))
room_ids = record { empty = []; read = λ body. inr [] }

abbrev replies : ℕ → Reply
replies n = sample_reply

abbrev sample_turns : List (Option (ClientError ℕ) × Body)
sample_turns = (some sample_error, dummy_auth) ∷ ((none, dummy_auth) ∷ [])

uia_calls-Stages_example :
    (map seen
        (uia_calls (registration (codes "alice") (codes "pw") []) prompts no_auth sample_turns)
      ≡ map
          (λ a. (
            post,
            codes "/client/v3/register",
            false,
            fields_of (registration_request (codes "alice") (codes "pw") []) ++ auth_of a,
          ))
          (no_auth ∷ (dummy_auth ∷ [])))
    × (map seen (
          uia_calls
            (delete_devices (short ∷ []))
            (prompts_with_flows (λ e. e == 1))
            no_auth
            sample_turns)
        ≡ map
            (λ a. (
              post,
              codes "/client/v3/delete_devices",
              true,
              (codes "devices", strings (short ∷ [])) ∷ auth_of a,
            ))
            (no_auth ∷ (dummy_auth ∷ [])))
uia_calls-Stages_example =
    uia_calls-Stages (codes "alice") (codes "pw") [] (short ∷ []) (λ e. e == 1) sample_turns
      (dummy_auth ∷ []) (dummy_auth ∷ []) (asks (refl, refl) (ends (λ h. h tt)))
      (asks (refl, refl) (ends (λ h. h tt)))

-- The slash that `report_event` leaves out, and the order of parameters.
report_event_run :
    (report_event (codes "!r") (codes "$e") [] (pos 0)).endpoint
    ≡ codes "/client/v3/rooms%21r/report/%24e"
unfolding report_event url_encode is_kept
report_event_run = refl

messages_run : query_params (messages_params sample_messages) ≡ codes "dir=b&from=t1&limit=30"
unfolding messages_params emplace query_params more_params url_encode is_kept digits
messages_run = refl

thumbnail_run : query_params (thumbnail_params sample_opts) ≡ codes "height=96&method=crop&width=96"
unfolding thumbnail_params emplace query_params more_params url_encode is_kept digits
thumbnail_run = refl
