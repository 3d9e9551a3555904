-- ===== src/PowerLevels/Stored.antt =====
-- lib/structs/events/power_levels.cpp: `from_json` and `to_json` of the power levels.
pub mod Roundtrip
use mtxclient.Shared.{ℤ, String, Option, none, some, List, [], ◌∷◌, Map}
use mtxclient.Libraries.Json.{JsonLibrary, JsonWriter}
use mtxclient.Json.{find, read_field, get_map, ◌>>=◌}
use mtxclient.Json.Maps.{int_fields}
use mtxclient.PowerLevels.{PowerLevels, user, moderator}

module _ (json : JsonLibrary) where
  -- `if (obj.count(key) != 0) level = obj.at(key).get<power_level_t>();`
  abbrev pub level_in : ℤ → String → json.Json → Option ℤ
  level_in default key obj = read_field json json.integer default (find json key obj)

  abbrev pub map_in : String → json.Json → Option (Map ℤ)
  map_in key obj = read_field json (get_map json json.integer) [] (find json key obj)

  -- `from_json`, into levels that were made without arguments.
  unfoldable pub read_levels : json.Json → Option PowerLevels
  read_levels obj = do
    ban ← level_in moderator "ban" obj
    invite ← level_in moderator "invite" obj
    kick ← level_in moderator "kick" obj
    redact ← level_in moderator "redact" obj
    events ← map_in "events" obj
    users ← map_in "users" obj
    events_default ← level_in user "events_default" obj
    users_default ← level_in user "users_default" obj
    state_default ← level_in moderator "state_default" obj
    notifications ← map_in "notifications" obj
    some (record {
      ban = ban;
      invite = invite;
      kick = kick;
      redact = redact;
      events = events;
      users = users;
      events_default = events_default;
      users_default = users_default;
      state_default = state_default;
      notifications = notifications;
    })

module _ (json : JsonLibrary) (writer : JsonWriter json) where
  -- `if (m.size() != 0) obj[key] = m;`
  abbrev pub map_field : String → Map ℤ → Map json.Json → Map json.Json
  map_field key [] rest = rest
  map_field key (e ∷ m) rest = (key, writer.object (int_fields json writer (e ∷ m))) ∷ rest

  abbrev pub late_fields : PowerLevels → Map json.Json
  late_fields levels =
      ("events_default", writer.int levels.events_default)
      ∷ ("users_default", writer.int levels.users_default)
      ∷ ("state_default", writer.int levels.state_default)
      ∷ map_field "notifications" levels.notifications []

  abbrev pub middle_fields : PowerLevels → Map json.Json
  middle_fields levels = map_field "users" levels.users (late_fields levels)

  abbrev pub level_fields : PowerLevels → Map json.Json
  level_fields levels =
      ("ban", writer.int levels.ban)
      ∷ ("kick", writer.int levels.kick)
      ∷ ("invite", writer.int levels.invite)
      ∷ ("redact", writer.int levels.redact)
      ∷ map_field "events" levels.events (middle_fields levels)

  -- `to_json`
  unfoldable pub write_levels : PowerLevels → json.Json
  write_levels levels = writer.object (level_fields levels)
