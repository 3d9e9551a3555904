-- ===== src/Relations/Write/Roundtrip.antt =====
-- A relation that is written is read back.
use mtxclient.Json.Laws.{find-object, get_text-text, get_bool-flag}
use mtxclient.Shared.{
  String, ◌≡◌, ◌∙◌, refl, ap, Bool, true, false, Option, none, some, [], ◌∷◌, Map, lookup,
  if◌then◌else◌, str_eq,
}
use mtxclient.Libraries.Json.{JsonLibrary, JsonWriter, JsonLaws}
use mtxclient.PushRules.Types.{
  Relation, RelationType, annotation, reference, replace, in_reply_to, thread, unsupported,
}
use mtxclient.Json.{read_field, find, get_text, get_bool}
use mtxclient.Relations.{relation_type, read_relation_type, some_text, read_relation}
use mtxclient.Relations.Write.{relation_name, key_fields, write_relation}

pub relation_type-relation_name : (t : RelationType) → relation_type (relation_name t) ≡ t
unfolding relation_type relation_name
relation_type-relation_name annotation = refl
relation_type-relation_name reference = refl
relation_type-relation_name replace = refl
relation_type-relation_name in_reply_to = refl
relation_type-relation_name thread = refl
relation_type-relation_name unsupported = refl

module _ (json : JsonLibrary) (writer : JsonWriter json) (laws : JsonLaws json writer) where
  module _ (r : Relation) where
    type-found :
        find json "rel_type" (write_relation json writer r)
        ≡ some (writer.text (relation_name r.rel_type))
    unfolding write_relation lookup
    type-found = find-object json writer laws "rel_type" _

    event-found :
        find json "event_id" (write_relation json writer r) ≡ some (writer.text r.event_id)
    unfolding write_relation lookup
    event-found = find-object json writer laws "event_id" _

    type-read :
        read_field json
          (read_relation_type json)
          unsupported
          (find json "rel_type" (write_relation json writer r))
        ≡ some r.rel_type
    type-read =
        rw (type-found, get_text-text json writer laws _)
          (ap some (relation_type-relation_name r.rel_type))

    event-read :
        read_field json (get_text json) "" (find json "event_id" (write_relation json writer r))
        ≡ some r.event_id
    event-read = rw event-found (get_text-text json writer laws r.event_id)

  abbrev pub fallback_fields : Bool → Map json.Json
  fallback_fields b = if b then ("im.nheko.relations.v1.is_fallback", writer.flag true) ∷ [] else []

  key-read :
      (k : Option String) (b : Bool)
      → read_field json
          (some_text json)
          none
          (lookup "key" (key_fields json writer k (fallback_fields b)))
        ≡ some k
  unfolding lookup
  key-read none true = refl
  key-read none false = refl
  key-read (some k) b = rw (get_text-text json writer laws k) refl

  fallback-read :
      (k : Option String) (b : Bool)
      → read_field json (get_bool json) false (
          lookup "im.nheko.relations.v1.is_fallback" (key_fields json writer k (fallback_fields b)))
        ≡ some b
  unfolding lookup
  fallback-read none true = get_bool-flag json writer laws true
  fallback-read none false = refl
  fallback-read (some k) true = get_bool-flag json writer laws true
  fallback-read (some k) false = refl

  pub rest-found :
      (r : Relation) (key : String)
      → str_eq "rel_type" key ≡ false
      → str_eq "event_id" key ≡ false
      → find json key (write_relation json writer r)
        ≡ lookup key (key_fields json writer r.key (fallback_fields r.is_fallback))
  unfolding write_relation lookup
  rest-found r key h k = find-object json writer laws key _ ∙ rw (h, k) refl

  -- A relation that is written is read as itself.
  pub read_relation-write_relation :
      (r : Relation) → read_relation json (write_relation json writer r) ≡ some r
  unfolding read_relation
  read_relation-write_relation r =
      rw
        (
          type-read r,
          event-read r,
          rest-found r "key" refl refl,
          key-read r.key r.is_fallback,
          rest-found r "im.nheko.relations.v1.is_fallback" refl refl,
          fallback-read r.key r.is_fallback,
        )
        refl
