-- ===== src/RoomCreate/Levels.antt =====
-- The levels of a room's users, where its power levels and its creation event come from JSON.
use mtxclient.Shared.{
  String, utf8_length, ◌≡◌, refl, ◌∙◌, false, some, str_eq, if◌then◌else◌, eq_iff, arith,
}
use mtxclient.Libraries.Json.{JsonLibrary, JsonWriter, JsonLaws}
use mtxclient.PowerLevels.{
  PowerLevels, Create, user_level, room_version_creators_with_infinite_power,
}
use mtxclient.PowerLevels.Stored.{read_levels, write_levels}
use mtxclient.PowerLevels.Stored.Roundtrip.{FitInt64, read_levels-write_levels}
use mtxclient.RoomCreate.{CreateContent, created_by, read_create, write_create}
use mtxclient.RoomCreate.Roundtrip.{read_create-write_create}

abbrev or_first : String → String
or_first version = if str_eq version "" then "1" else version

abbrev with_version : Create → String → Create
with_version create version = record create { room_version = version }

old_versions :
    (create : Create)
    → (room_version_creators_with_infinite_power (with_version create "") ≡ false)
      × (room_version_creators_with_infinite_power (with_version create "1") ≡ false)
unfolding room_version_creators_with_infinite_power utf8_length
old_versions create = (refl, refl)

-- A room without a version has the creators of version 1.
first_version :
    (create : Create) (version : String)
    → room_version_creators_with_infinite_power (with_version create (or_first version))
      ≡ room_version_creators_with_infinite_power (with_version create version)
first_version create version = ground (arith, eq_iff version "", old_versions create)

module _ (json : JsonLibrary) (writer : JsonWriter json) (laws : JsonLaws json writer) where
  same_level :
      (levels : PowerLevels) (sender user_id : String) (content : CreateContent)
      → user_level levels user_id
          (created_by sender (record content { room_version = or_first content.room_version }))
        ≡ user_level levels user_id (created_by sender content)
  unfolding user_level
  same_level levels sender user_id content =
      rw (first_version (created_by sender content) content.room_version) refl

  -- Power levels that fit into 64 bits and the content of a creation event, both written and read back,
  -- give every user the level that they had, whoever sent the event.
  pub user_level-stored :
      (levels : PowerLevels) (content : CreateContent)
      → FitInt64 levels
      → (new : PowerLevels) × (again : CreateContent) × (read_levels json
            (write_levels json writer levels)
          ≡ some new)
        × (read_create json (write_create json writer content) ≡ some again)
        × ((sender user_id : String)
            → user_level new user_id (created_by sender again)
              ≡ user_level levels user_id (created_by sender content))
  user_level-stored levels content h =
      let (new, returned, same) = read_levels-write_levels json writer laws levels h in
      (
        new,
        record content { room_version = or_first content.room_version },
        returned,
        read_create-write_create json writer laws content,
        λ sender user_id.
            same.same_users user_id
              (created_by sender (record content { room_version = or_first content.room_version }))
            ∙ same_level levels sender user_id content,
      )
