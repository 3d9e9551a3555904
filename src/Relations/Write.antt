-- ===== src/Relations/Write.antt =====
-- `to_json` of a relation, and `add_relations`.
pub mod Roundtrip
pub mod Assign
pub mod Listed
use mtxclient.Shared.{
  String, Bool, true, false, not, ◌&&◌, Option, none, some, List, [], ◌∷◌, ◌++◌, Map, lookup,
  insert, if◌then◌else◌,
}
use mtxclient.Libraries.Json.{JsonLibrary, JsonWriter, View, object, null, array}
use mtxclient.PushRules.Types.{
  Relation, RelationType, annotation, reference, replace, in_reply_to, thread, unsupported,
  rel_type_eq,
}
use mtxclient.Json.{find, get_array, ◌>>=◌}
use mtxclient.Relations.{Relations}

-- `to_json` of a `RelationType`
unfoldable pub relation_name : RelationType → String
relation_name annotation = "m.annotation"
relation_name reference = "m.reference"
relation_name replace = "m.replace"
relation_name in_reply_to = "im.nheko.relations.v1.in_reply_to"
relation_name thread = "m.thread"
relation_name unsupported = "unsupported"

-- The relations that the loop of `add_relations` leaves: the last of each sort.
pub record Sorted : Type 0 where
  pub edit : Option Relation
  pub not_edit : Option Relation
  pub reply : Option Relation

unfoldable pub sort : Sorted → List Relation → Sorted
sort s [] = s
sort s (r ∷ relations) =
    if rel_type_eq r.rel_type replace
    then sort (record s { edit = some r }) relations
    else if rel_type_eq r.rel_type in_reply_to
    then sort (record s { reply = some r }) relations
    else sort (record s { not_edit = some r }) relations

module _ (json : JsonLibrary) (writer : JsonWriter json) where
  abbrev pub key_fields : Option String → Map json.Json → Map json.Json
  key_fields none fields = fields
  key_fields (some key) fields = ("key", writer.text key) ∷ fields

  -- `to_json` of a `Relation`
  unfoldable pub write_relation : Relation → json.Json
  write_relation r = writer.object (
      ("rel_type", writer.text (relation_name r.rel_type))
      ∷ (("event_id", writer.text r.event_id)
          ∷ key_fields r.key (
              if r.is_fallback
              then ("im.nheko.relations.v1.is_fallback", writer.flag true) ∷ []
              else [])))

  abbrev pub fields_of : View json.Json → Option (Map json.Json)
  fields_of (object fields) = some fields
  fields_of null = some []
  fields_of _ = none

  abbrev pub or_null : Option json.Json → json.Json
  or_null none = writer.null
  or_null (some v) = v

  -- `obj[key]...[key] = value`, which makes the objects that are missing and throws where a value is none.
  unfoldable pub assign : List String → json.Json → json.Json → Option json.Json
  assign [] value obj = some value
  assign (key ∷ keys) value obj = do
    fields ← fields_of (json.view obj)
    inner ← assign keys value (or_null (lookup key fields))
    some (writer.object (insert key inner fields))

  abbrev pub items_of : View json.Json → Option (List json.Json)
  items_of (array items) = some items
  items_of null = some []
  items_of _ = none

  -- `content[key].push_back(...)` of the relations that are supported.
  unfoldable pub push_relations : List Relation → json.Json → Option json.Json
  push_relations [] content = some content
  push_relations (r ∷ relations) content =
      if rel_type_eq r.rel_type unsupported then push_relations relations content else do
        fields ← fields_of (json.view content)
        items ← items_of (json.view (or_null (lookup "im.nheko.relations.v1.relations" fields)))
        push_relations relations (
            writer.object (
              insert "im.nheko.relations.v1.relations"
                (writer.array (items ++ write_relation r ∷ [])) fields))

  unfoldable pub add_not_edit : Option Relation → json.Json → Option json.Json
  add_not_edit none content = some content
  add_not_edit (some r) content = assign ("m.relates_to" ∷ []) (write_relation r) content

  abbrev pub is_thread : Option Relation → Bool
  is_thread none = false
  is_thread (some r) = rel_type_eq r.rel_type thread

  unfoldable pub add_reply : Option Relation → Option Relation → json.Json → Option json.Json
  add_reply not_edit none content = some content
  add_reply not_edit (some reply) content = do
    replied ←
        assign ("m.relates_to" ∷ ("m.in_reply_to" ∷ ("event_id" ∷ []))) (writer.text reply.event_id)
          content
    if reply.is_fallback && is_thread not_edit
        then assign ("m.relates_to" ∷ ("is_falling_back" ∷ [])) (writer.flag true) replied
        else some replied

  unfoldable pub add_edit : Option Relation → Option Relation → json.Json → Option json.Json
  add_edit not_edit none content = some content
  add_edit none (some edit) content = assign ("m.relates_to" ∷ []) (write_relation edit) content
  add_edit (some r) (some edit) content = do
    moved ←
        assign ("m.new_content" ∷ ("m.relates_to" ∷ []))
          (or_null (find json "m.relates_to" content)) content
    assign ("m.relates_to" ∷ []) (write_relation edit) moved

  -- The part behind the test for an empty list.
  unfoldable pub add_some : json.Json → Relations → Option json.Json
  add_some content relations = do
    let s = sort (record { edit = none; not_edit = none; reply = none }) relations.relations
    related ← add_not_edit s.not_edit content
    replied ← add_reply s.not_edit s.reply related
    edited ← add_edit s.not_edit s.edit replied
    if relations.synthesized then some edited else push_relations relations.relations edited

  abbrev pub no_items : List Relation → Bool
  no_items [] = true
  no_items (r ∷ relations) = false

  unfoldable pub add_relations : json.Json → Relations → Option json.Json
  add_relations content relations =
      if no_items relations.relations then some content else add_some content relations
