-- ===== src/Json/Laws.antt =====
-- What is found in a JSON value that was made.
use mtxclient.Shared.{String, ◌≡◌, refl, Bool, none, some, Map, lookup, List, map, [], ◌∷◌}
use mtxclient.Libraries.Json.{JsonLibrary, JsonWriter, JsonLaws}
use mtxclient.Json.{find, get_text, get_bool, get_array, texts_of, get_texts, elements}

module _ (json : JsonLibrary) (writer : JsonWriter json) (laws : JsonLaws json writer) where
  pub find-object :
      (key : String) (fields : Map json.Json)
      → find json key (writer.object fields) ≡ lookup key fields
  unfolding find
  find-object key fields = let (seen, e, same) = laws.view_object fields in rw e (same key)

  pub get_text-text : (s : String) → get_text json (writer.text s) ≡ some s
  unfolding get_text
  get_text-text s = rw (laws.view_text s) refl

  pub get_bool-flag : (b : Bool) → get_bool json (writer.flag b) ≡ some b
  unfolding get_bool
  get_bool-flag b = rw (laws.view_flag b) refl

  pub texts_of-texts : (users : List String) → texts_of json (map writer.text users) ≡ some users
  unfolding texts_of
  texts_of-texts [] = refl
  texts_of-texts (user ∷ users) = rw (get_text-text user, texts_of-texts users) refl

  pub get_texts-array :
      (users : List String) → get_texts json (writer.array (map writer.text users)) ≡ some users
  unfolding get_texts get_array
  get_texts-array users = rw (laws.view_array (map writer.text users)) (texts_of-texts users)

  pub get_text-object : (fields : Map json.Json) → get_text json (writer.object fields) ≡ none
  unfolding get_text
  get_text-object fields = let (seen, e, same) = laws.view_object fields in rw e refl

  pub elements-array : (items : List json.Json) → elements json (writer.array items) ≡ items
  unfolding elements
  elements-array items = rw (laws.view_array items) refl
