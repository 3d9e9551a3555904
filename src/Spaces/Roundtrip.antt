-- ===== src/Spaces/Roundtrip.antt =====
-- The events of a space, written and read back.
use mtxclient.Shared.{
  String, ◌≡◌, refl, Bool, true, false, Option, none, some, List, [], ◌∷◌, Map, map, lookup, str_eq,
  if◌then◌else◌,
}
use mtxclient.Libraries.Json.{JsonLibrary, JsonWriter, JsonLaws}
use mtxclient.Json.{get_bool, get_array, read_field}
use mtxclient.Json.Laws.{find-object, get_text-text, get_bool-flag, texts_of-texts}
use mtxclient.Json.Fields.{given_field, lookup-given_field, value-object}
use mtxclient.Spaces.{
  Parent, Child, is_valid_order_str, via_in, canonical_in, order_in, read_parent, read_child,
  via_fields, order_field, last_field, write_parent, write_child,
}

-- What is left of an event that is written: nothing where no server is listed, and an order that is valid.
abbrev pub valid_order : Option String → Option String
valid_order none = none
valid_order (some order) = if is_valid_order_str order then some order else none

abbrev pub kept_parent : Option (List String) → Bool → Parent
kept_parent none canonical = record { via = none; canonical = false }
kept_parent (some []) canonical = record { via = none; canonical = false }
kept_parent (some (server ∷ via)) canonical = record {
  via = some (server ∷ via);
  canonical = canonical;
}

abbrev pub kept_child : Option (List String) → Option String → Bool → Child
kept_child none order suggested = record { via = none; order = none; suggested = false }
kept_child (some []) order suggested = record { via = none; order = none; suggested = false }
kept_child (some (server ∷ via)) order suggested = record {
  via = some (server ∷ via);
  order = valid_order order;
  suggested = suggested;
}

module _ (json : JsonLibrary) (writer : JsonWriter json) (laws : JsonLaws json writer) where
  via-read :
      (server : String) (via : List String)
      → via_in json (some (writer.array (map writer.text (server ∷ via))))
        ≡ some (some (server ∷ via))
  unfolding get_array
  via-read server via =
      rw
        (
          laws.view_array (map writer.text (server ∷ via)),
          texts_of-texts json writer laws (server ∷ via),
        )
        refl

  canonical-read :
      (canonical : Bool)
      → canonical_in json
          (lookup "canonical" (given_field json writer canonical "canonical" (writer.flag true) []))
        ≡ canonical
  unfolding lookup
  canonical-read true = rw (get_bool-flag json writer laws true) refl
  canonical-read false = refl

  suggested-read :
      (suggested : Bool)
      → read_field json
          (get_bool json)
          false
          (lookup "suggested" (last_field json writer suggested))
        ≡ some suggested
  unfolding lookup
  suggested-read true = get_bool-flag json writer laws true
  suggested-read false = refl

  last-other :
      (key : String) (suggested : Bool)
      → str_eq "suggested" key ≡ false
      → lookup key (last_field json writer suggested) ≡ none
  unfolding lookup
  last-other key suggested h =
      lookup-given_field json writer laws suggested "suggested" key (writer.flag true) [] h

  order_if :
      (valid : Bool) (order : String) (rest : Map json.Json)
      → (if valid then is_valid_order_str order ≡ true else Unit)
      → lookup "order" rest ≡ none
      → order_in json
          (lookup "order" (given_field json writer valid "order" (writer.text order) rest))
        ≡ (if valid then some order else none)
  unfolding lookup
  order_if true order rest h gone = rw (get_text-text json writer laws order, h) refl
  order_if false order rest h gone = rw gone refl

  order-read :
      (order : Option String) (suggested : Bool)
      → order_in json
          (lookup "order" (order_field json writer order (last_field json writer suggested)))
        ≡ valid_order order
  order-read none suggested = rw (last-other "order" suggested refl) refl
  order-read (some order) suggested =
      order_if (is_valid_order_str order) order (last_field json writer suggested)
        (valid (is_valid_order_str order) refl) (last-other "order" suggested refl)
    where
      valid :
          (b : Bool)
          → is_valid_order_str order ≡ b
          → (if b then is_valid_order_str order ≡ true else Unit)
      valid true h = h
      valid false h = tt

  order-skip :
      (order : Option String) (suggested : Bool)
      → lookup "suggested" (order_field json writer order (last_field json writer suggested))
        ≡ lookup "suggested" (last_field json writer suggested)
  order-skip none suggested = refl
  order-skip (some order) suggested =
      lookup-given_field json writer laws (is_valid_order_str order) "order" "suggested"
        (writer.text order) (last_field json writer suggested) refl

  parent-back :
      (via : Option (List String)) (canonical : Bool)
      → read_parent json (
          writer.object (
            via_fields json writer via
              (given_field json writer canonical "canonical" (writer.flag true) [])))
        ≡ some (kept_parent via canonical)
  unfolding read_parent lookup
  parent-back none canonical =
      rw (find-object json writer laws "via" [], find-object json writer laws "canonical" []) refl
  parent-back (some []) canonical =
      rw (find-object json writer laws "via" [], find-object json writer laws "canonical" []) refl
  parent-back (some (server ∷ via)) canonical =
      let fields : Map json.Json =
        via_fields json writer (some (server ∷ via))
          (given_field json writer canonical "canonical" (writer.flag true) []) in
      rw
        (
          find-object json writer laws "via" fields,
          via-read server via,
          find-object json writer laws "canonical" fields,
          canonical-read canonical,
        )
        refl

  child-none : read_child json (writer.object []) ≡ some (kept_child none none false)
  unfolding read_child lookup
  child-none =
      rw
        (
          find-object json writer laws "via" [],
          value-object json writer laws (get_bool json) false "suggested" [],
          find-object json writer laws "order" [],
        )
        refl

  child-back :
      (via : Option (List String)) (order : Option String) (suggested : Bool)
      → read_child json (
          writer.object (
            via_fields json writer via
              (order_field json writer order (last_field json writer suggested))))
        ≡ some (kept_child via order suggested)
  unfolding read_child lookup
  child-back none order suggested = child-none
  child-back (some []) order suggested = child-none
  child-back (some (server ∷ via)) order suggested =
      let fields : Map json.Json =
        via_fields json writer (some (server ∷ via))
          (order_field json writer order (last_field json writer suggested)) in
      rw
        (
          find-object json writer laws "via" fields,
          via-read server via,
          value-object json writer laws (get_bool json) false "suggested" fields,
          order-skip order suggested,
          suggested-read suggested,
          find-object json writer laws "order" fields,
          order-read order suggested,
        )
        refl

  -- The events of a space that are written are read back: a parent or a child without servers has nothing
  -- else, and an order of a child that is not valid is dropped.
  pub read_child-write_child :
      (parent : Parent) (child : Child)
      → (read_parent json (write_parent json writer parent)
          ≡ some (kept_parent parent.via parent.canonical))
        × (read_child json (write_child json writer child)
            ≡ some (kept_child child.via child.order child.suggested))
  unfolding write_parent write_child
  read_child-write_child parent child =
      (parent-back parent.via parent.canonical, child-back child.via child.order child.suggested)
