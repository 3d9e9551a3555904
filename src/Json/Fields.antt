-- ===== src/Json/Fields.antt =====
-- The fields of a JSON object that are written only where there is something to write.
use mtxclient.Shared.{
  String, ◌≡◌, refl, Bool, true, false, Option, none, some, List, map, [], ◌∷◌, Map, lookup, str_eq,
  if◌then◌else◌, eq_iff, arith, All,
}
use mtxclient.Libraries.Json.{JsonLibrary, JsonWriter, JsonLaws}
use mtxclient.Json.{read_field, value_in, all_of, get_text}
use mtxclient.Json.Laws.{get_text-text}

module _ (json : JsonLibrary) (writer : JsonWriter json) where
  -- `if (!s.empty()) obj[key] = s;`
  abbrev pub filled_field : String → String → Map json.Json → Map json.Json
  filled_field key s rest = if str_eq s "" then rest else (key, writer.text s) ∷ rest

  -- `if (v) obj[key] = *v;`
  abbrev pub some_field {ℓ} :
      {A : Type ℓ} → (A → json.Json) → String → Option A → Map json.Json → Map json.Json
  some_field to_json key none rest = rest
  some_field to_json key (some a) rest = (key, to_json a) ∷ rest

  -- `if (test) obj[key] = v;`
  abbrev pub given_field : Bool → String → json.Json → Map json.Json → Map json.Json
  given_field test key v rest = if test then (key, v) ∷ rest else rest

module _ (json : JsonLibrary) (writer : JsonWriter json) (laws : JsonLaws json writer) where
  -- An optional field does not hide the others.
  pub lookup-filled_field :
      (key asked s : String) (rest : Map json.Json)
      → str_eq key asked ≡ false
      → lookup asked (filled_field json writer key s rest) ≡ lookup asked rest
  unfolding lookup
  lookup-filled_field key asked s rest h = ground (arith, h)

  pub lookup-some_field :
      {A : Type 0} (to_json : A → json.Json) (key asked : String) (v : Option A)
      (rest : Map json.Json)
      → str_eq key asked ≡ false
      → lookup asked (some_field json writer to_json key v rest) ≡ lookup asked rest
  unfolding lookup
  lookup-some_field to_json key asked none rest h = refl
  lookup-some_field to_json key asked (some a) rest h = rw h refl

  text_if :
      (empty : Bool) (key default s : String) (rest : Map json.Json)
      → str_eq key key ≡ true
      → lookup key rest ≡ none
      → read_field json
          (get_text json)
          default
          (lookup key (if empty then rest else (key, writer.text s) ∷ rest))
        ≡ some (if empty then default else s)
  unfolding lookup
  text_if true key default s rest self gone = rw gone refl
  text_if false key default s rest self gone = rw self (get_text-text json writer laws s)

  -- A text is read from its field, and the default where it is empty.
  pub text-read :
      (key default s : String) (rest : Map json.Json)
      → str_eq key key ≡ true
      → lookup key rest ≡ none
      → read_field json (get_text json) default (lookup key (filled_field json writer key s rest))
        ≡ some (if str_eq s "" then default else s)
  text-read key default s rest = text_if (str_eq s "") key default s rest

  pub or_empty : (s : String) → (if str_eq s "" then "" else s) ≡ s
  or_empty s = ground (arith, eq_iff s "")

  pub lookup-given_field :
      (test : Bool) (key asked : String) (v : json.Json) (rest : Map json.Json)
      → str_eq key asked ≡ false
      → lookup asked (given_field json writer test key v rest) ≡ lookup asked rest
  unfolding lookup
  lookup-given_field test key asked v rest h = ground (arith, h)

  -- `value(key, default)` of an object that was made.
  pub value-object {ℓ} :
      {A : Type ℓ} (get : json.Json → Option A) (default : A) (key : String)
      (fields : Map json.Json)
      → value_in json get default key (json.view (writer.object fields))
        ≡ read_field json get default (lookup key fields)
  value-object get default key fields =
      let (seen, e, same) = laws.view_object fields in rw (e, same key) refl

  -- What is read of each element that was put into an array is read of the array.
  pub all_of-map :
      {A : Type 0} (P : A → Type 0) (get : json.Json → Option A) (put : A → json.Json)
      (kept : A → A)
      → ((a : A) → P a → get (put a) ≡ some (kept a))
      → (xs : List A) → All P xs
      → all_of json get (map put xs) ≡ some (map kept xs)
  unfolding all_of
  all_of-map P get put kept back [] h = refl
  all_of-map P get put kept back (x ∷ xs) (p, h) =
      rw (back x p, all_of-map P get put kept back xs h) refl
