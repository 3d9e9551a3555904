-- ===== src/Relations/Apply.antt =====
-- `apply_relations`: the relations of a content, and the fallback of an edit.
use Prim.Native.String
use mtxclient.Shared.{
  String, Bool, true, ◌||◌, Option, none, some, [], ◌∷◌, Map, if◌then◌else◌, str_eq,
}
use mtxclient.Libraries.Json.{JsonLibrary, JsonWriter, View, object}
use mtxclient.Json.{find, get_text, ◌>>=◌}
use mtxclient.Relations.{Relations, replaces}
use mtxclient.Relations.Write.{assign, add_relations}

-- The fields that the new content does not take over.
abbrev is_apart : String → Bool
is_apart key =
    str_eq key "m.relates_to"
    || str_eq key "im.nheko.relations.v1.relations"
    || str_eq key "m.new_content"

module _ (json : JsonLibrary) (writer : JsonWriter json) where
  -- The loop over the fields, which copies them into the new content.
  unfoldable pub copy_fields : Map json.Json → json.Json → Option json.Json
  copy_fields [] content = some content
  copy_fields ((key, v) ∷ fields) content =
      if is_apart key
      then copy_fields fields content
      else assign json writer ("m.new_content" ∷ (key ∷ [])) v content >>= copy_fields fields

  -- `content[key] = "* " + content[key].get<std::string>()`, where the field is there
  abbrev star_found : String → json.Json → Option json.Json → Option json.Json
  star_found key content none = some content
  star_found key content (some v) = do
    s ← get_text json v
    assign json writer (key ∷ []) (writer.text (String.◌++◌ "* " s)) content

  unfoldable pub star : String → json.Json → Option json.Json
  star key content = star_found key content (find json key content)

  abbrev items_in : View json.Json → Map json.Json
  items_in (object fields) = fields
  items_in _ = []

  unfoldable pub apply_edit : Option String → json.Json → Option json.Json
  apply_edit none content = some content
  apply_edit (some edited) content =
      copy_fields (items_in (json.view content)) content >>= star "body" >>= star "formatted_body"

  unfoldable pub apply_relations : json.Json → Relations → Option json.Json
  apply_relations content relations =
      add_relations json writer content relations >>= apply_edit (replaces relations true)
