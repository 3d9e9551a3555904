-- ===== src/Http/Paths/Rules.antt =====
-- The paths of the calls about push rules and the key backup.
use mtxclient.Shared.{ℕ, ◌≡◌, refl, Bool, not, List, [], ◌∷◌, codes, arith, AreBytes}
use mtxclient.Utils.{is_kept, query_params}
use mtxclient.Http.{Body, is_empty}
use mtxclient.Http.Push.{
  get_pushrule, delete_pushrules, put_pushrules, get_pushrules_enabled, put_pushrules_enabled,
  get_pushrules_actions, put_pushrules_actions, query_of,
}
use mtxclient.Http.Params.{emplace_if}
use mtxclient.Http.Keys.{
  backup_version, update_backup_version, room_keys_of_room, room_keys_of_session,
  put_room_keys_of_room, put_room_keys_of_session,
}
use mtxclient.Http.Paths.{
  read_path, word, given, in_client, of_client, query_of-IsQuery, read_path-write_path,
  read_path-plain_path,
}

-- What is read in the paths.
abbrev pub RulePaths : List ℕ → List ℕ → List ℕ → List ℕ → List ℕ → Bool → Body → Type 0
RulePaths scope kind id before after enabled req =
    (read_path (get_pushrule scope kind id).endpoint
      ≡ in_client (codes "pushrules" ∷ (scope ∷ (kind ∷ (id ∷ [])))))
    × (read_path (delete_pushrules scope kind id).endpoint
        ≡ in_client (codes "pushrules" ∷ (scope ∷ (kind ∷ (id ∷ [])))))
    × (read_path (put_pushrules scope kind id req before after).endpoint
        ≡ in_client (codes "pushrules" ∷ (scope ∷ (kind ∷ (id ∷ [])))))
    × (read_path (get_pushrules_enabled scope kind id).endpoint
        ≡ in_client (codes "pushrules" ∷ (scope ∷ (kind ∷ (id ∷ (codes "enabled" ∷ []))))))
    × (read_path (put_pushrules_enabled scope kind id enabled).endpoint
        ≡ in_client (codes "pushrules" ∷ (scope ∷ (kind ∷ (id ∷ (codes "enabled" ∷ []))))))
    × (read_path (get_pushrules_actions scope kind id).endpoint
        ≡ in_client (codes "pushrules" ∷ (scope ∷ (kind ∷ (id ∷ (codes "actions" ∷ []))))))
    × (read_path (put_pushrules_actions scope kind id req).endpoint
        ≡ in_client (codes "pushrules" ∷ (scope ∷ (kind ∷ (id ∷ (codes "actions" ∷ []))))))
    × (read_path (backup_version id).endpoint
        ≡ in_client (codes "room_keys" ∷ (codes "version" ∷ (id ∷ []))))
    × (read_path (update_backup_version id req).endpoint
        ≡ in_client (codes "room_keys" ∷ (codes "version" ∷ (id ∷ []))))
    × (read_path (room_keys_of_room after id).endpoint
        ≡ in_client (codes "room_keys" ∷ (codes "keys" ∷ (id ∷ []))))
    × (read_path (room_keys_of_session after id kind).endpoint
        ≡ in_client (codes "room_keys" ∷ (codes "keys" ∷ (id ∷ (kind ∷ [])))))
    × (read_path (put_room_keys_of_room after id req).endpoint
        ≡ in_client (codes "room_keys" ∷ (codes "keys" ∷ (id ∷ []))))
    × (read_path (put_room_keys_of_session after id kind req).endpoint
        ≡ in_client (codes "room_keys" ∷ (codes "keys" ∷ (id ∷ (kind ∷ [])))))

pub read_path-rules :
    (scope kind id before after : List ℕ) (enabled : Bool) (req : Body)
    → AreBytes scope
    → AreBytes kind
    → AreBytes id
    → RulePaths scope kind id before after enabled req
unfolding get_pushrule delete_pushrules put_pushrules get_pushrules_enabled put_pushrules_enabled
    get_pushrules_actions put_pushrules_actions backup_version update_backup_version
    room_keys_of_room room_keys_of_session put_room_keys_of_room put_room_keys_of_session is_kept
read_path-rules scope kind id before after enabled req h k l = (
  read_path-plain_path
      (of_client (word (codes "pushrules") ∷ (given scope ∷ (given kind ∷ (given id ∷ [])))))
      (ground arith),
  read_path-plain_path
      (of_client (word (codes "pushrules") ∷ (given scope ∷ (given kind ∷ (given id ∷ [])))))
      (ground arith),
  read_path-write_path
      (of_client (word (codes "pushrules") ∷ (given scope ∷ (given kind ∷ (given id ∷ [])))))
      (query_of (
        emplace_if (not (is_empty after)) (codes "after") after
          (emplace_if (not (is_empty before)) (codes "before") before [])))
      (ground arith) (query_of-IsQuery _),
  read_path-plain_path
      (of_client (
        word (codes "pushrules")
        ∷ (given scope ∷ (given kind ∷ (given id ∷ (word (codes "enabled") ∷ []))))))
      (ground arith),
  read_path-plain_path
      (of_client (
        word (codes "pushrules")
        ∷ (given scope ∷ (given kind ∷ (given id ∷ (word (codes "enabled") ∷ []))))))
      (ground arith),
  read_path-plain_path
      (of_client (
        word (codes "pushrules")
        ∷ (given scope ∷ (given kind ∷ (given id ∷ (word (codes "actions") ∷ []))))))
      (ground arith),
  read_path-plain_path
      (of_client (
        word (codes "pushrules")
        ∷ (given scope ∷ (given kind ∷ (given id ∷ (word (codes "actions") ∷ []))))))
      (ground arith),
  read_path-plain_path
      (of_client (word (codes "room_keys") ∷ (word (codes "version") ∷ (given id ∷ []))))
      (ground arith),
  read_path-plain_path
      (of_client (word (codes "room_keys") ∷ (word (codes "version") ∷ (given id ∷ []))))
      (ground arith),
  read_path-write_path
      (of_client (word (codes "room_keys") ∷ (word (codes "keys") ∷ (given id ∷ []))))
      (b'?' ∷ query_params ((codes "version", after) ∷ [])) (ground arith) refl,
  read_path-write_path
      (of_client
        (word (codes "room_keys") ∷ (word (codes "keys") ∷ (given id ∷ (given kind ∷ [])))))
      (b'?' ∷ query_params ((codes "version", after) ∷ [])) (ground arith) refl,
  read_path-write_path
      (of_client (word (codes "room_keys") ∷ (word (codes "keys") ∷ (given id ∷ []))))
      (b'?' ∷ query_params ((codes "version", after) ∷ [])) (ground arith) refl,
  read_path-write_path
      (of_client
        (word (codes "room_keys") ∷ (word (codes "keys") ∷ (given id ∷ (given kind ∷ [])))))
      (b'?' ∷ query_params ((codes "version", after) ∷ [])) (ground arith) refl,
)
