-- ===== src/Json.antt =====
-- The functions of nlohmann::json that the readers of lib/structs use; `none` stands for its exceptions.
pub mod Laws
pub mod Maps
pub mod Fields
use mtxclient.Shared.{
  String, Bool, true, false, Option, none, some, Map, List, map, [], ◌∷◌, lookup, str_eq,
}
use mtxclient.Libraries.Json.{JsonLibrary, View, object, array, string, boolean, null}

infixl 5 ◌>>=◌
abbrev pub ◌>>=◌ {ℓ κ} : {A : Type ℓ} {B : Type κ} → Option A → (A → Option B) → Option B
none >>= next = none
some a >>= next = next a

module _ (json : JsonLibrary) where
  abbrev pub field_of : String → View json.Json → Option json.Json
  field_of key (object fields) = lookup key fields
  field_of key _ = none

  -- `find(key)`, where `none` is `end()`, and `at(key)`, where it is the exception.
  unfoldable pub find : String → json.Json → Option json.Json
  find key obj = field_of key (json.view obj)

  abbrev pub at_key : String → json.Json → Option json.Json
  at_key key obj = find key obj

  abbrev is_some {ℓ} : {A : Type ℓ} → Option A → Bool
  is_some none = false
  is_some (some v) = true

  -- `contains(key)`
  abbrev pub contains : String → json.Json → Bool
  contains key obj = is_some (find key obj)

  abbrev text_of : View json.Json → Option String
  text_of (string s) = some s
  text_of _ = none

  abbrev bool_of : View json.Json → Option Bool
  bool_of (boolean b) = some b
  bool_of _ = none

  abbrev array_of : View json.Json → Option (List json.Json)
  array_of (array items) = some items
  array_of _ = none

  -- `get<std::string>()`, `get<bool>()`, and the elements of an array.
  unfoldable pub get_text : json.Json → Option String
  get_text v = text_of (json.view v)

  unfoldable pub get_bool : json.Json → Option Bool
  get_bool v = bool_of (json.view v)

  unfoldable pub get_array : json.Json → Option (List json.Json)
  get_array v = array_of (json.view v)

  abbrev equals : String → Option String → Bool
  equals s none = false
  equals s (some t) = str_eq t s

  -- `v == s`
  abbrev pub is_text : String → json.Json → Bool
  is_text s v = equals s (get_text v)

  -- `if (auto it = obj.find(key); it != obj.end()) field = it->get<...>()`
  abbrev pub read_field {ℓ} :
      {A : Type ℓ} → (json.Json → Option A) → A → Option json.Json → Option A
  read_field get default none = some default
  read_field get default (some v) = get v

  -- `value(key, default)`, which throws where the JSON is no object.
  abbrev pub value_in {ℓ} :
      {A : Type ℓ} → (json.Json → Option A) → A → String → View json.Json → Option A
  value_in get default key (object fields) = read_field get default (lookup key fields)
  value_in get default key _ = none

  unfoldable pub texts_of : List json.Json → Option (List String)
  texts_of [] = some []
  texts_of (v ∷ items) = do some ((← get_text v) ∷ (← texts_of items))

  -- `get<std::vector<std::string>>()`
  unfoldable pub get_texts : json.Json → Option (List String)
  get_texts v = get_array v >>= texts_of

  unfoldable pub entries_of {ℓ} :
      {A : Type ℓ} → (json.Json → Option A) → Map json.Json → Option (Map A)
  entries_of get [] = some []
  entries_of get ((key, v) ∷ fields) = do
    value ← get v
    entries ← entries_of get fields
    some ((key, value) ∷ entries)

  abbrev pub map_of {ℓ} : {A : Type ℓ} → (json.Json → Option A) → View json.Json → Option (Map A)
  map_of get (object fields) = entries_of get fields
  map_of get _ = none

  -- `get<std::map<std::string, A>>()`, whose entries are in the order of the JSON here.
  unfoldable pub get_map {ℓ} : {A : Type ℓ} → (json.Json → Option A) → json.Json → Option (Map A)
  get_map get v = map_of get (json.view v)

  unfoldable pub all_of {ℓ} :
      {A : Type ℓ} → (json.Json → Option A) → List json.Json → Option (List A)
  all_of get [] = some []
  all_of get (v ∷ items) = do a ← get v; rest ← all_of get items; some (a ∷ rest)

  abbrev elements_of : json.Json → View json.Json → List json.Json
  elements_of v (array items) = items
  elements_of v (object fields) = map (λ field. field.1) fields
  elements_of v null = []
  elements_of v _ = v ∷ []

  -- The elements that a loop over a JSON value goes through.
  unfoldable pub elements : json.Json → List json.Json
  elements v = elements_of v (json.view v)
