-- ===== src/Http/Directory.antt =====
-- lib/http/client.cpp: synchronisation, the room directory, and a room's hierarchy and summary.
use mtxclient.Shared.{
  ℕ, Bool, not, ◌||◌, List, [], ◌∷◌, ◌+++◌, Option, none, some, ltb, ◌==◌, if◌then◌else◌, codes,
}
use mtxclient.Utils.{url_encode, query_params}
use mtxclient.Http.Params.{emplace, emplace_if}
use mtxclient.Http.Push.{query_of}
use mtxclient.Http.Membership.{repeated}
use mtxclient.Http.Tasks.{Task, done, ask}
use mtxclient.Http.Replies.{Reader, ClientError, prepare_callback}
use mtxclient.Http.Users.{PresenceState, presence_to_string}
use mtxclient.Http.{
  Call, Body, string, object, end, field, is_empty, decimal, get_call, put_call, post_call,
  delete_call,
}

pub record SyncOpts : Type 0 where
  pub filter : List ℕ
  pub since : List ℕ
  pub timeout : ℕ
  pub full_state : Bool
  pub set_presence : Option PresenceState

unfoldable pub emplace_presence :
    Option PresenceState → List (List ℕ × List ℕ) → List (List ℕ × List ℕ)
emplace_presence none params = params
emplace_presence (some state) params =
    emplace (codes "set_presence") (presence_to_string state) params

-- The parameters of `sync`.
unfoldable pub sync_params : SyncOpts → List (List ℕ × List ℕ)
sync_params opts =
    let params = emplace_if (not (is_empty opts.filter)) (codes "filter") opts.filter [] in
    let params = emplace_if (not (is_empty opts.since)) (codes "since") opts.since params in
    let params = emplace_if opts.full_state (codes "full_state") (codes "true") params in
    let params = emplace_presence opts.set_presence params in
    emplace (codes "timeout") (decimal opts.timeout) params

unfoldable pub sync : SyncOpts → Call
sync opts = get_call (codes "/client/v3/sync?" +++ query_params (sync_params opts))

unfoldable pub versions : Call
versions = get_call (codes "/client/versions")

unfoldable pub capabilities : Call
capabilities = get_call (codes "/client/v3/capabilities")

unfoldable pub resolve_room_alias : List ℕ → Call
resolve_room_alias alias = get_call (codes "/client/v3/directory/room/" +++ url_encode alias)

unfoldable pub add_room_alias : List ℕ → List ℕ → Call
add_room_alias alias roomid =
    put_call (codes "/client/v3/directory/room/" +++ url_encode alias)
      (object (field (codes "room_id") (string roomid) end))

unfoldable pub delete_room_alias : List ℕ → Call
delete_room_alias alias = delete_call (codes "/client/v3/directory/room/" +++ url_encode alias)

unfoldable pub get_room_visibility : List ℕ → Call
get_room_visibility room_id =
    get_call (codes "/client/v3/directory/list/room/" +++ url_encode room_id)

unfoldable pub put_room_visibility : List ℕ → Body → Call
put_room_visibility room_id req =
    put_call (codes "/client/v3/directory/list/room/" +++ url_encode room_id) req

unfoldable pub post_public_rooms : Body → List ℕ → Call
post_public_rooms req server =
    post_call
      (codes "/client/v3/publicRooms"
        +++ (if is_empty server then [] else b'?' ∷ query_params ((codes "server", server) ∷ [])))
      req

-- The parameters of `get_public_rooms`.
unfoldable pub public_rooms_params : List ℕ → ℕ → List ℕ → List (List ℕ × List ℕ)
public_rooms_params server limit since =
    let params = emplace_if (not (is_empty server)) (codes "server") server [] in
    let params = emplace_if (ltb 0 limit) (codes "limit") (decimal limit) params in
    emplace_if (not (is_empty since)) (codes "since") since params

unfoldable pub get_public_rooms : List ℕ → ℕ → List ℕ → Call
get_public_rooms server limit since =
    get_call (codes "/client/v3/publicRooms" +++ query_of (public_rooms_params server limit since))

-- The parameters of `get_hierarchy`.
unfoldable pub hierarchy_params : List ℕ → ℕ → ℕ → Bool → List (List ℕ × List ℕ)
hierarchy_params from limit max_depth suggested_only =
    let params = emplace_if (ltb 0 limit) (codes "limit") (decimal limit) [] in
    let params = emplace_if (ltb 0 max_depth) (codes "max_depth") (decimal max_depth) params in
    let params = emplace_if suggested_only (codes "suggested_only") (codes "true") params in
    emplace_if (not (is_empty from)) (codes "from") from params

unfoldable pub get_hierarchy : List ℕ → List ℕ → ℕ → ℕ → Bool → Call
get_hierarchy room_id from limit max_depth suggested_only = get_call (
    codes "/client/v1/rooms/"
    +++ url_encode room_id
    +++ codes "/hierarchy"
    +++ query_of (hierarchy_params from limit max_depth suggested_only))

-- `err->status_code == 404 || err->status_code == 400`, where there is an error
unfoldable pub is_missing {κ} : {E : Type κ} → Option (ClientError E) → Bool
is_missing none = Bool.false
is_missing (some err) = err.status_code == 404 || err.status_code == 400

unfoldable pub summary_query : List (List ℕ) → List ℕ
summary_query [] = []
summary_query (v ∷ via) = codes "?via=" +++ url_encode v +++ repeated (codes "via") via

-- `!room_id.empty() && room_id[0] == '#'`
abbrev pub is_alias : List ℕ → Bool
is_alias [] = Bool.false
is_alias (c ∷ s) = c == b'#'

module _ {ℓ κ} {T : Type ℓ} {E : Type κ} (chunks : Reader T) (room_ids : Reader (List ℕ))
    (hierarchies : Reader (List T)) (errors : Reader E) where
  -- The first room of a hierarchy, or an empty one.
  unfoldable pub first_room : List T → Option (ClientError E) → T × Option (ClientError E)
  first_room [] err = (chunks.empty, err)
  first_room (room ∷ rooms) err = (room, err)

  -- The last call of `get_summary`, with a maximal depth of 0 and without a token.
  unfoldable pub summary_of_hierarchy : List ℕ → Task (T × Option (ClientError E))
  summary_of_hierarchy room_id =
      ask (get_hierarchy room_id [] 1 0 Bool.false)
        λ r. let a = prepare_callback hierarchies errors r in done (first_room a.response a.error)

  unfoldable pub summary_of_alias : List ℕ → Task (T × Option (ClientError E))
  summary_of_alias room_id = ask (resolve_room_alias room_id) λ r.
      let a = prepare_callback room_ids errors r in
      if is_empty a.response then done (chunks.empty, a.error) else summary_of_hierarchy a.response

  unfoldable pub get_summary : List ℕ → List (List ℕ) → Task (T × Option (ClientError E))
  get_summary room_id via =
      let api_path =
        codes "/client/unstable/im.nheko.summary/rooms/"
        +++ url_encode room_id
        +++ codes "/summary"
        +++ summary_query via in
      ask (get_call api_path) λ r.
        let a = prepare_callback chunks errors r in
        if not (is_missing a.error)
        then done (a.response, a.error)
        else if is_alias room_id
        then summary_of_alias room_id
        else summary_of_hierarchy room_id
