-- ===== src/Libraries/Json.antt =====
-- nlohmann::json, as far as the modelled code reads it.
use mtxclient.Shared.{String, Bool, List, Option, some, ℤ, IsInt64, Map, lookup, All, ◌≡◌}

-- What `type()` tells apart, with the value that the matching `get` returns; `number` is the value
-- of `get<std::int64_t>()` at an integer. `other` is a float, a binary value or a discarded one.
pub data View (J : Type 0) : Type 0 where
  object : List (String × J) → View J
  array : List J → View J
  string : String → View J
  null : View J
  boolean : Bool → View J
  number : ℤ → View J
  other : View J

pub record JsonLibrary : Type 1 where
  pub Json : Type 0
  pub view : Json → View Json
  -- `value(key, default)` at a text default; `none` where it throws
  pub value : Json → String → String → Option String
  -- `get<std::int64_t>()`; `none` where it throws
  pub integer : Json → Option ℤ

-- How a JSON value is made. The names of an object's fields are distinct.
pub record JsonWriter (json : JsonLibrary) : Type 0 where
  pub null : json.Json
  pub text : String → json.Json
  pub flag : Bool → json.Json
  pub int : ℤ → json.Json
  pub array : List json.Json → json.Json
  pub object : Map json.Json → json.Json

-- What is made is seen again; the fields of an object may come in another order.
pub record JsonLaws (json : JsonLibrary) (writer : JsonWriter json) : Type 1 where
  pub view_null : json.view writer.null ≡ null
  pub view_text : (s : String) → json.view (writer.text s) ≡ string s
  pub view_flag : (b : Bool) → json.view (writer.flag b) ≡ boolean b
  pub view_int : (n : ℤ) → IsInt64 n → json.view (writer.int n) ≡ number n
  pub integer_int : (n : ℤ) → IsInt64 n → json.integer (writer.int n) ≡ some n
  pub view_array : (items : List json.Json) → json.view (writer.array items) ≡ array items
  pub view_object :
      (fields : Map json.Json)
      → (seen : Map json.Json) × (json.view (writer.object fields) ≡ object seen)
        × ((key : String) → lookup key seen ≡ lookup key fields)
  -- What holds of each field that was written holds of each that is seen.
  pub fields_seen :
      (P : String × json.Json → Type 0) (fields seen : Map json.Json)
      → json.view (writer.object fields) ≡ object seen
      → All P fields
      → All P seen
