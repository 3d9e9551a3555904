-- ===== src/RoomCreate.antt =====
-- lib/structs/events/create.cpp and include/mtx/events/create.hpp: the content of the creation event of a
-- room, from and to JSON.
pub mod Roundtrip
pub mod Levels
mod Examples
use mtxclient.Shared.{
  String, Bool, true, Option, none, some, List, [], ◌∷◌, Map, map, str_eq, if◌then◌else◌,
}
use mtxclient.Libraries.Json.{JsonLibrary, JsonWriter}
use mtxclient.Json.{find, at_key, get_text, get_bool, get_texts, read_field, value_in, ◌>>=◌}
use mtxclient.Json.Fields.{filled_field, some_field}
use mtxclient.PowerLevels.{Create}

pub record PreviousRoom : Type 0 where
  pub room_id : String
  pub event_id : String

-- `mtx::events::state::Create`
pub record CreateContent : Type 0 where
  pub room_type : Option String
  pub federate : Bool
  pub room_version : String
  pub predecessor : Option PreviousRoom
  pub additional_creators : List String

-- What the power levels read of the event of a sender.
abbrev pub created_by : String → CreateContent → Create
created_by sender content = record {
  sender = sender;
  room_version = content.room_version;
  additional_creators = content.additional_creators;
}

module _ (json : JsonLibrary) where
  -- `from_json` of a `PreviousRoom`
  unfoldable pub read_previous : json.Json → Option PreviousRoom
  read_previous obj = do
    v ← at_key json "room_id" obj
    room_id ← get_text json v
    event_id ← value_in json (get_text json) "" "event_id" (json.view obj)
    some (record { room_id = room_id; event_id = event_id })

  abbrev pub some_previous : json.Json → Option (Option PreviousRoom)
  some_previous v = do previous ← read_previous v; some (some previous)

  -- `obj.contains("type") && obj.at("type").is_string()`
  abbrev pub type_in : Option json.Json → Option String
  type_in none = none
  type_in (some v) = get_text json v

  -- `from_json` of a `Create`
  unfoldable pub read_create : json.Json → Option CreateContent
  read_create obj = do
    federate ← read_field json (get_bool json) true (find json "m.federate" obj)
    room_version ← read_field json (get_text json) "1" (find json "room_version" obj)
    predecessor ← read_field json some_previous none (find json "predecessor" obj)
    additional_creators ← read_field json (get_texts json) [] (find json "additional_creators" obj)
    some (record {
      room_type = type_in (find json "type" obj);
      federate = federate;
      room_version = room_version;
      predecessor = predecessor;
      additional_creators = additional_creators;
    })

module _ (json : JsonLibrary) (writer : JsonWriter json) where
  -- `to_json` of a `PreviousRoom`
  unfoldable pub write_previous : PreviousRoom → json.Json
  write_previous previous = writer.object (
      ("room_id", writer.text previous.room_id)
      ∷ filled_field json writer "event_id" previous.event_id [])

  abbrev pub creator_fields : List String → Map json.Json
  creator_fields [] = []
  creator_fields (user_id ∷ creators) =
      ("additional_creators", writer.array (map writer.text (user_id ∷ creators))) ∷ []

  abbrev pub last_fields : CreateContent → Map json.Json
  last_fields create =
      some_field json writer write_previous "predecessor" create.predecessor
        (creator_fields create.additional_creators)

  abbrev pub type_fields : CreateContent → Map json.Json
  type_fields create =
      some_field json writer writer.text "type" create.room_type (last_fields create)

  abbrev pub create_fields : CreateContent → Map json.Json
  create_fields create =
      ("m.federate", writer.flag create.federate)
      ∷ filled_field json writer "room_version" create.room_version (type_fields create)

  -- `to_json` of a `Create`
  unfoldable pub write_create : CreateContent → json.Json
  write_create create = writer.object (create_fields create)
