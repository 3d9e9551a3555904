-- ===== src/Relations/Mentions.antt =====
-- `Mentions`: reading and writing them.
use mtxclient.Json.Laws.{get_bool-flag, get_texts-array}
use mtxclient.Shared.{
  String, Bool, true, false, Option, none, some, List, [], ◌∷◌, Map, map, lookup, ◌≡◌, refl,
}
use mtxclient.Libraries.Json.{JsonLibrary, JsonWriter, JsonLaws}
use mtxclient.Json.{read_field, value_in, get_texts, find, get_bool, ◌>>=◌}
use mtxclient.Relations.Write.{assign}
use mtxclient.Relations.Write.Assign.{assign-nil, HasFields, assign-Assigned}

pub record Mentions : Type 0 where
  pub user_ids : List String
  pub room : Bool

module _ (json : JsonLibrary) where
  -- `from_json` of `Mentions`
  unfoldable pub read_mentions : json.Json → Option Mentions
  read_mentions obj = do
    room ← value_in json (get_bool json) false "room" (json.view obj)
    user_ids ← value_in json (get_texts json) [] "user_ids" (json.view obj)
    some (record { user_ids = user_ids; room = room })

  abbrev some_mentions : json.Json → Option (Option Mentions)
  some_mentions v = do m ← read_mentions v; some (some m)

  unfoldable pub parse_mentions : json.Json → Option (Option Mentions)
  parse_mentions content = read_field json some_mentions none (find json "m.mentions" content)

  module _ (writer : JsonWriter json) where
    abbrev user_fields : List String → Map json.Json
    user_fields [] = []
    user_fields (user ∷ users) = ("user_ids", writer.array (map writer.text (user ∷ users))) ∷ []

    abbrev mention_fields : Bool → List String → Map json.Json
    mention_fields true users = ("room", writer.flag true) ∷ user_fields users
    mention_fields false users = user_fields users

    -- `to_json` of `Mentions`
    unfoldable pub write_mentions : Mentions → json.Json
    write_mentions m = writer.object (mention_fields m.room m.user_ids)

    unfoldable pub add_mentions : json.Json → Option Mentions → Option json.Json
    add_mentions content none = some content
    add_mentions content (some m) =
        assign json writer ("m.mentions" ∷ []) (write_mentions m) content

module _ (json : JsonLibrary) (writer : JsonWriter json) (laws : JsonLaws json writer) where
  room-read :
      (room : Bool) (users : List String)
      → read_field json
          (get_bool json)
          false
          (lookup "room" (mention_fields json writer room users))
        ≡ some room
  unfolding lookup
  room-read true users = get_bool-flag json writer laws true
  room-read false [] = refl
  room-read false (user ∷ users) = refl

  users-read :
      (room : Bool) (users : List String)
      → read_field json
          (get_texts json)
          []
          (lookup "user_ids" (mention_fields json writer room users))
        ≡ some users
  unfolding lookup
  users-read true [] = refl
  users-read false [] = refl
  users-read true (user ∷ users) = get_texts-array json writer laws (user ∷ users)
  users-read false (user ∷ users) = get_texts-array json writer laws (user ∷ users)

  read_mentions-write_mentions :
      (m : Mentions) → read_mentions json (write_mentions json writer m) ≡ some m
  unfolding read_mentions write_mentions
  read_mentions-write_mentions m =
      let (seen, e, same) = laws.view_object (mention_fields json writer m.room m.user_ids) in
      rw
        (e, same "room", same "user_ids", room-read m.room m.user_ids, users-read m.room m.user_ids)
        refl

  -- Mentions that are added to a content, an object or null, are parsed from it again; adding them succeeds.
  pub parse_mentions-add_mentions :
      (m : Mentions) (content : json.Json)
      → HasFields json writer laws content
      → (out : json.Json) × (add_mentions json writer content (some m) ≡ some out)
        × (parse_mentions json out ≡ some (some m))
  unfolding add_mentions parse_mentions
  parse_mentions-add_mentions m content h =
      let a =
        assign-Assigned json writer laws "m.mentions" [] (write_mentions json writer m) content
          (h, tt) in
      (
        a.out,
        a.returned,
        rw (a.found, assign-nil json writer laws _ _ _ a.assigned, read_mentions-write_mentions m)
            refl,
      )
