-- ===== src/Spaces.antt =====
-- lib/structs/events/spaces.cpp and include/mtx/events/spaces.hpp: the events that put rooms into spaces.
pub mod Roundtrip
mod Examples
use mtxclient.Shared.{
  String, Bool, true, false, not, ◌&&◌, ◌||◌, ltb, Option, none, some, List, [], ◌∷◌, Map, map,
  if◌then◌else◌,
}
use Prim.Native.Char.{code}
use Prim.Native.String.{len}
use mtxclient.Libraries.Json.{JsonLibrary, JsonWriter}
use mtxclient.Json.{find, get_text, get_bool, get_array, texts_of, value_in, ◌>>=◌}
use mtxclient.Json.Fields.{given_field}

pub record Parent : Type 0 where
  pub via : Option (List String)
  pub canonical : Bool

pub record Child : Type 0 where
  pub via : Option (List String)
  pub order : Option String
  pub suggested : Bool

-- The loop of `is_valid_order_str`; a byte above 0x7F is negative there, and a letter above it here.
unfoldable pub are_printable : String → Bool
are_printable String.[] = true
are_printable (String.◌∷◌ c order) =
    not (ltb (code c) 0x20 || ltb 0x7E (code c)) && are_printable order

unfoldable pub is_valid_order_str : String → Bool
is_valid_order_str order = if ltb 50 (len order) then false else are_printable order

module _ (json : JsonLibrary) where
  abbrev via_of : Option (List json.Json) → Option (Option (List String))
  via_of none = some none
  via_of (some []) = some none
  via_of (some (v ∷ items)) = texts_of json (v ∷ items) >>= λ via. some (some via)

  -- `contains("via") && at("via").is_array() && !at("via").empty()`
  abbrev pub via_in : Option json.Json → Option (Option (List String))
  via_in none = some none
  via_in (some v) = via_of (get_array json v)

  abbrev flag_of : Option Bool → Bool
  flag_of none = false
  flag_of (some b) = b

  abbrev pub canonical_in : Option json.Json → Bool
  canonical_in none = false
  canonical_in (some v) = flag_of (get_bool json v)

  abbrev order_of : Option String → Option String
  order_of none = none
  order_of (some order) = if is_valid_order_str order then some order else none

  abbrev pub order_in : Option json.Json → Option String
  order_in none = none
  order_in (some v) = order_of (get_text json v)

  -- `from_json` of a `Parent`
  unfoldable pub read_parent : json.Json → Option Parent
  read_parent obj = do
    via ← via_in (find json "via" obj)
    some (record { via = via; canonical = canonical_in (find json "canonical" obj) })

  -- `from_json` of a `Child`
  unfoldable pub read_child : json.Json → Option Child
  read_child obj = do
    via ← via_in (find json "via" obj)
    suggested ← value_in json (get_bool json) false "suggested" (json.view obj)
    some (record { via = via; order = order_in (find json "order" obj); suggested = suggested })

module _ (json : JsonLibrary) (writer : JsonWriter json) where
  -- An event without `via` is written without any field.
  abbrev pub via_fields : Option (List String) → Map json.Json → Map json.Json
  via_fields none rest = []
  via_fields (some []) rest = []
  via_fields (some (server ∷ via)) rest =
      ("via", writer.array (map writer.text (server ∷ via))) ∷ rest

  abbrev pub order_field : Option String → Map json.Json → Map json.Json
  order_field none rest = rest
  order_field (some order) rest =
      given_field json writer (is_valid_order_str order) "order" (writer.text order) rest

  abbrev pub parent_fields : Parent → Map json.Json
  parent_fields parent =
      via_fields parent.via
        (given_field json writer parent.canonical "canonical" (writer.flag true) [])

  -- `to_json` of a `Parent`
  unfoldable pub write_parent : Parent → json.Json
  write_parent parent = writer.object (parent_fields parent)

  abbrev pub last_field : Bool → Map json.Json
  last_field suggested = given_field json writer suggested "suggested" (writer.flag true) []

  -- `to_json` of a `Child`
  unfoldable pub write_child : Child → json.Json
  write_child child =
      writer.object (via_fields child.via (order_field child.order (last_field child.suggested)))
