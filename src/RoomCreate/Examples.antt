-- ===== src/RoomCreate/Examples.antt =====
-- The theorems at a room of version 12 that replaces another.
use mtxclient.Shared.{
  ◌≡◌, refl, String, true, none, some, [], ◌∷◌, arith, str_eq, if◌then◌else◌, pos, negsuc, lookup,
}
use mtxclient.Samples.{sample_json, sample_writer, sample_writer-laws, obj, field, none_left, int}
use mtxclient.Json.{find, get_text, get_bool}
use mtxclient.PowerLevels.{PowerLevels, default_levels, user_level}
use mtxclient.PowerLevels.Stored.{read_levels, write_levels}
use mtxclient.PowerLevels.Stored.Roundtrip.{FitInt64, DecideSame, read_levels-write_levels}
use mtxclient.RoomCreate.{CreateContent, read_previous, created_by, read_create, write_create}
use mtxclient.RoomCreate.Roundtrip.{read_create-write_create}
use mtxclient.RoomCreate.Levels.{user_level-stored}

abbrev space : CreateContent
space = record {
  room_type = some "m.space";
  federate = true;
  room_version = "12";
  predecessor = some (record { room_id = "!old:example.org"; event_id = "" });
  additional_creators = "@bob:example.org" ∷ [];
}

abbrev levels : PowerLevels
levels = record default_levels { users = ("@carol:example.org", negsuc 4) ∷ [] }

-- A type that is no text is passed over, and a room without a version has version 1.
read_run :
    read_create sample_json (obj (field "type" (int (pos 3)) none_left))
    ≡ some (record {
      room_type = none;
      federate = true;
      room_version = "1";
      predecessor = none;
      additional_creators = [];
    })
unfolding read_create find get_text get_bool lookup
read_run = refl

-- A predecessor without a room is an error.
error_run : read_create sample_json (obj (field "predecessor" (obj none_left) none_left)) ≡ none
unfolding read_create read_previous find get_text get_bool lookup
error_run = refl

levels-FitInt64 : FitInt64 levels
levels-FitInt64 = record {
  ban_fits = omega arith;
  invite_fits = omega arith;
  kick_fits = omega arith;
  redact_fits = omega arith;
  events_default_fits = omega arith;
  users_default_fits = omega arith;
  state_default_fits = omega arith;
  events_fit = tt;
  users_fit = (omega arith, tt);
  notifications_fit = tt;
}

read_create-write_create_example :
    read_create sample_json (write_create sample_json sample_writer space)
    ≡ some (record space { room_version = if str_eq "12" "" then "1" else "12" })
read_create-write_create_example =
    read_create-write_create sample_json sample_writer sample_writer-laws space

user_level-stored_example :
    (new : PowerLevels) × (again : CreateContent) × (read_levels sample_json
        (write_levels sample_json sample_writer levels)
      ≡ some new)
    × (read_create sample_json (write_create sample_json sample_writer space) ≡ some again)
    × ((sender user_id : String)
        → user_level new user_id (created_by sender again)
          ≡ user_level levels user_id (created_by sender space))
user_level-stored_example =
    user_level-stored sample_json sample_writer sample_writer-laws levels space levels-FitInt64

read_levels-write_levels_example :
    (new : PowerLevels) × (read_levels sample_json (write_levels sample_json sample_writer levels)
      ≡ some new)
    × DecideSame levels new
read_levels-write_levels_example =
    read_levels-write_levels sample_json sample_writer sample_writer-laws levels levels-FitInt64
