-- ===== src/RoomCreate/Roundtrip.antt =====
-- The content of a creation event that is written is read back.
use mtxclient.Shared.{
  String, ◌≡◌, refl, ap, ◌∙◌, true, false, Option, none, some, List, [], ◌∷◌, Map, lookup, str_eq,
  if◌then◌else◌,
}
use mtxclient.Libraries.Json.{JsonLibrary, JsonWriter, JsonLaws}
use mtxclient.Json.{find, read_field, value_in, get_text, get_bool, get_texts}
use mtxclient.Json.Laws.{find-object, get_text-text, get_bool-flag, get_texts-array}
use mtxclient.Json.Fields.{
  filled_field, some_field, lookup-filled_field, lookup-some_field, text-read, or_empty,
}
use mtxclient.RoomCreate.{
  PreviousRoom, CreateContent, read_previous, some_previous, type_in, read_create, filled_field,
  some_field, write_previous, creator_fields, last_fields, type_fields, create_fields, write_create,
}

module _ (json : JsonLibrary) (writer : JsonWriter json) (laws : JsonLaws json writer) where
  event-read :
      (previous : PreviousRoom)
      → value_in json
          (get_text json)
          ""
          "event_id"
          (json.view (write_previous json writer previous))
        ≡ some previous.event_id
  unfolding write_previous lookup
  event-read previous =
      let fields =
        ("room_id", writer.text previous.room_id)
        ∷ filled_field json writer "event_id" previous.event_id [] in
      let (seen, e, same) = laws.view_object fields in
      rw (e, same "event_id")
        (text-read json writer laws "event_id" "" previous.event_id [] refl refl
          ∙ ap some (or_empty json writer laws previous.event_id))

  room-found :
      (previous : PreviousRoom)
      → find json "room_id" (write_previous json writer previous)
        ≡ some (writer.text previous.room_id)
  unfolding write_previous lookup
  room-found previous = find-object json writer laws "room_id" (
      ("room_id", writer.text previous.room_id)
      ∷ filled_field json writer "event_id" previous.event_id [])

  read_previous-write_previous :
      (previous : PreviousRoom)
      → read_previous json (write_previous json writer previous) ≡ some previous
  unfolding read_previous
  read_previous-write_previous previous =
      rw (room-found previous, get_text-text json writer laws previous.room_id, event-read previous)
        refl

  creators-other :
      (key : String) (creators : List String)
      → str_eq "additional_creators" key ≡ false
      → lookup key (creator_fields json writer creators) ≡ none
  unfolding lookup
  creators-other key [] h = refl
  creators-other key (user_id ∷ creators) h = rw h refl

  creators-read :
      (creators : List String)
      → read_field json
          (get_texts json)
          []
          (lookup "additional_creators" (creator_fields json writer creators))
        ≡ some creators
  unfolding lookup
  creators-read [] = refl
  creators-read (user_id ∷ creators) = get_texts-array json writer laws (user_id ∷ creators)

  previous-read :
      (predecessor : Option PreviousRoom) (creators : List String)
      → read_field json (some_previous json) none (
          lookup "predecessor" (
            some_field json writer
              (write_previous json writer)
              "predecessor"
              predecessor
              (creator_fields json writer creators)))
        ≡ some predecessor
  unfolding lookup
  previous-read none creators = rw (creators-other "predecessor" creators refl) refl
  previous-read (some previous) creators = rw (read_previous-write_previous previous) refl

  module _ (create : CreateContent) where
    -- The fields after the first two, and those after the type.
    type-found :
        (key : String)
        → str_eq "m.federate" key ≡ false
        → str_eq "room_version" key ≡ false
        → find json key (write_create json writer create)
          ≡ lookup key (type_fields json writer create)
    unfolding write_create lookup
    type-found key f v =
        find-object json writer laws key (create_fields json writer create)
        ∙ rw f (
            lookup-filled_field json writer laws "room_version" key create.room_version
              (type_fields json writer create) v)

    last-found :
        (key : String)
        → str_eq "type" key ≡ false
        → lookup key (type_fields json writer create) ≡ lookup key (last_fields json writer create)
    last-found key t =
        lookup-some_field json writer laws writer.text "type" key create.room_type
          (last_fields json writer create) t

    creators-found :
        (key : String)
        → str_eq "predecessor" key ≡ false
        → lookup key (last_fields json writer create)
          ≡ lookup key (creator_fields json writer create.additional_creators)
    creators-found key p =
        lookup-some_field json writer laws (write_previous json writer) "predecessor" key
          create.predecessor (creator_fields json writer create.additional_creators) p

    federate-read :
        read_field json
          (get_bool json)
          true
          (find json "m.federate" (write_create json writer create))
        ≡ some create.federate
    unfolding write_create lookup
    federate-read =
        rw (find-object json writer laws "m.federate" (create_fields json writer create))
          (get_bool-flag json writer laws create.federate)

    version-read :
        read_field json
          (get_text json)
          "1"
          (find json "room_version" (write_create json writer create))
        ≡ some (if str_eq create.room_version "" then "1" else create.room_version)
    unfolding write_create lookup
    version-read =
        rw (find-object json writer laws "room_version" (create_fields json writer create)) (
          text-read json writer laws "room_version" "1" create.room_version
            (type_fields json writer create) refl
            (last-found "room_version" refl
              ∙ creators-found "room_version" refl
              ∙ creators-other "room_version" create.additional_creators refl))

    type-read :
        (v : Option String) (rest : Map json.Json)
        → lookup "type" rest ≡ none
        → type_in json (lookup "type" (some_field json writer writer.text "type" v rest)) ≡ v
    unfolding lookup
    type-read none rest gone = rw gone refl
    type-read (some s) rest gone = get_text-text json writer laws s

    type-back : type_in json (find json "type" (write_create json writer create)) ≡ create.room_type
    type-back = rw (type-found "type" refl refl) (
        type-read create.room_type (last_fields json writer create)
          (creators-found "type" refl ∙ creators-other "type" create.additional_creators refl))

    -- The content of a creation event that is written is read as itself, but that an empty room version
    -- is read as version 1.
    pub read_create-write_create :
        read_create json (write_create json writer create)
        ≡ some (record create {
          room_version = if str_eq create.room_version "" then "1" else create.room_version;
        })
    unfolding read_create
    read_create-write_create =
        rw
          (
            federate-read,
            version-read,
            type-found "predecessor" refl refl,
            last-found "predecessor" refl,
            previous-read create.predecessor create.additional_creators,
            type-found "additional_creators" refl refl,
            last-found "additional_creators" refl,
            creators-found "additional_creators" refl,
            creators-read create.additional_creators,
            type-back,
          )
          refl
