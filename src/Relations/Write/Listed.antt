-- ===== src/Relations/Write/Listed.antt =====
-- The relations that are added to a content are parsed again.
use mathlib.Core.List.{append-nil, append_assoc}
use mtxclient.Json.Laws.{find-object}
use mtxclient.Shared.{
  String, ◌≡◌, ◌∙◌, refl, sym, ap, Bool, true, false, not, ◌&&◌, Option, none, some, List, [], ◌∷◌,
  ◌++◌, map, all, Map, lookup, lookup-insert, insert, if◌then◌else◌, str_eq, arith,
}
use mtxclient.Libraries.Json.{JsonLibrary, JsonWriter, JsonLaws}
use mtxclient.PushRules.Types.{Relation, unsupported, rel_type_eq}
use mtxclient.Json.{find, get_array}
use mtxclient.Relations.Parse.{read_all, parse_listed, parse_relations}
use mtxclient.Relations.Write.{
  or_null, items_of, is_thread, assign, write_relation, add_not_edit, add_reply, add_edit, add_some,
  add_relations, push_relations, key_fields, sort,
}
use mtxclient.Relations.Write.Roundtrip.{rest-found, fallback_fields, read_relation-write_relation}
use mtxclient.Relations.Write.Assign.{
  some-injective, HasFields, object-HasFields, find-HasFields, CanAssign, null-CanAssign,
  assign-nil, Assigned, assign-Assigned,
}

both_true : (a b : Bool) → (a && b) ≡ true → (a ≡ true) × (b ≡ true)
both_true a b h = ground arith

abbrev pub listed_key : String
listed_key = "im.nheko.relations.v1.relations"

module _ (json : JsonLibrary) (writer : JsonWriter json) (laws : JsonLaws json writer) where
  -- A content between the steps: an object in which no relations are listed yet, and which has no new content.
  record Standing (content : json.Json) : Type 0 where
    has_fields : HasFields json writer laws content
    unlisted : find json listed_key content ≡ none
    unedited : find json "m.new_content" content ≡ none

  record Returns (call : Option json.Json) : Type 0 where
    out : json.Json
    returned : call ≡ some out
    standing : Standing out

  abbrev in_reply : List String
  in_reply = "m.in_reply_to" ∷ ("event_id" ∷ [])

  no_reply :
      (k : Option String) (b : Bool)
      → lookup "m.in_reply_to" (key_fields json writer k (fallback_fields json writer laws b))
        ≡ none
  unfolding lookup
  no_reply none true = refl
  no_reply none false = refl
  no_reply (some k) true = refl
  no_reply (some k) false = refl

  write_relation-CanAssign :
      (r : Relation) → CanAssign json writer laws in_reply (write_relation json writer r)
  unfolding write_relation
  write_relation-CanAssign r = (
    object-HasFields json writer laws _,
    rw (rest-found json writer laws r "m.in_reply_to" refl refl, no_reply r.key r.is_fallback)
        (null-CanAssign json writer laws ("event_id" ∷ [])),
  )

  -- The first assignment, and that it leaves room for the second.
  abbrev CanReply : json.Json → Type 0
  CanReply out =
      CanAssign json writer laws in_reply (or_null json writer (find json "m.relates_to" out))

  Assigned-Standing :
      (key : String) (keys : List String) (v content : json.Json)
      (a : Assigned json writer laws key keys v content)
      → str_eq key listed_key ≡ false
      → str_eq key "m.new_content" ≡ false
      → Standing content
      → Standing a.out
  Assigned-Standing key keys v content a h k s = record {
    has_fields = a.has_fields;
    unlisted = a.kept listed_key h ∙ s.unlisted;
    unedited = a.kept "m.new_content" k ∙ s.unedited;
  }

  related :
      (not_edit : Option Relation) (content : json.Json)
      → Standing content
      → find json "m.relates_to" content ≡ none
      → (r : Returns (add_not_edit json writer not_edit content)) × CanReply r.out
  unfolding add_not_edit
  related none content s unrelated = (
    record { out = content; returned = refl; standing = s },
    rw unrelated (null-CanAssign json writer laws in_reply),
  )
  related (some r) content s unrelated =
      let a =
        assign-Assigned json writer laws "m.relates_to" [] (write_relation json writer r) content
          (s.has_fields, tt) in
      (
        record {
          out = a.out;
          returned = a.returned;
          standing = Assigned-Standing "m.relates_to" [] _ content a refl refl s;
        },
        rw (a.found, assign-nil json writer laws _ _ _ a.assigned) (write_relation-CanAssign r),
      )

  -- The relation to the reply is an object, to which the mark of a fallback can be added.
  marked :
      (test : Bool) (v content : json.Json)
      (a : Assigned json writer laws "m.relates_to" in_reply v content)
      → Standing content
      → CanReply content
      → Returns (
          if test
          then assign json writer
              ("m.relates_to" ∷ ("is_falling_back" ∷ []))
              (writer.flag true)
              a.out
          else some a.out)
  marked false v content a s h = record {
    out = a.out;
    returned = refl;
    standing = Assigned-Standing "m.relates_to" in_reply v content a refl refl s;
  }
  marked true v content a s h =
      let i =
        assign-Assigned json writer laws "m.in_reply_to" ("event_id" ∷ []) v
          (or_null json writer (find json "m.relates_to" content)) h in
      let same : i.out ≡ a.inner = some-injective (sym i.returned ∙ a.assigned) in
      let b =
        assign-Assigned json writer laws "m.relates_to" ("is_falling_back" ∷ []) (writer.flag true)
          a.out (a.has_fields, rw (a.found, ← same) (i.has_fields, tt)) in
      record {
        out = b.out;
        returned = b.returned;
        standing =
            Assigned-Standing "m.relates_to" ("is_falling_back" ∷ []) _ a.out b refl refl
              (Assigned-Standing "m.relates_to" in_reply v content a refl refl s);
      }

  replied :
      (not_edit reply : Option Relation) (content : json.Json)
      → Standing content
      → CanReply content
      → Returns (add_reply json writer not_edit reply content)
  unfolding add_reply
  replied not_edit none content s h = record { out = content; returned = refl; standing = s }
  replied not_edit (some reply) content s h =
      let a =
        assign-Assigned json writer laws "m.relates_to" in_reply (writer.text reply.event_id)
          content (s.has_fields, h) in
      rw a.returned (marked (reply.is_fallback && is_thread json writer not_edit) _ content a s h)

  -- The last content before the relations are listed.
  record Edited (call : Option json.Json) : Type 0 where
    out : json.Json
    returned : call ≡ some out
    has_fields : HasFields json writer laws out
    unlisted : find json listed_key out ≡ none

  edited :
      (not_edit edit : Option Relation) (content : json.Json)
      → Standing content
      → Edited (add_edit json writer not_edit edit content)
  unfolding add_edit
  edited not_edit none content s = record {
    out = content;
    returned = refl;
    has_fields = s.has_fields;
    unlisted = s.unlisted;
  }
  edited none (some edit) content s =
      let a =
        assign-Assigned json writer laws "m.relates_to" [] (write_relation json writer edit) content
          (s.has_fields, tt) in
      record {
        out = a.out;
        returned = a.returned;
        has_fields = a.has_fields;
        unlisted = a.kept listed_key refl ∙ s.unlisted;
      }
  edited (some r) (some edit) content s =
      let a =
        assign-Assigned json writer laws "m.new_content" ("m.relates_to" ∷ [])
          (or_null json writer (find json "m.relates_to" content)) content
          (s.has_fields, rw s.unedited (null-CanAssign json writer laws ("m.relates_to" ∷ []))) in
      let b =
        assign-Assigned json writer laws "m.relates_to" [] (write_relation json writer edit) a.out
          (a.has_fields, tt) in
      record {
        out = b.out;
        returned = rw a.returned b.returned;
        has_fields = b.has_fields;
        unlisted = b.kept listed_key refl ∙ a.kept listed_key refl ∙ s.unlisted;
      }

  abbrev pub is_supported : Relation → Bool
  is_supported r = not (rel_type_eq r.rel_type unsupported)

  abbrev listed_in : json.Json → Option (List json.Json)
  listed_in content =
      items_of json writer (json.view (or_null json writer (find json listed_key content)))

  -- One round of the loop.
  push-one :
      (r : Relation) (relations : List Relation) (content : json.Json) (items : List json.Json)
      (h : HasFields json writer laws content)
      → listed_in content ≡ some items
      → is_supported r ≡ true
      → push_relations json writer (r ∷ relations) content
        ≡ push_relations json writer relations (
            writer.object
              (insert listed_key (writer.array (items ++ write_relation json writer r ∷ [])) h.0))
  unfolding push_relations
  push-one r relations content items h e k =
      rw (not_true k, h.1, ← find-HasFields json writer laws listed_key content h, e) refl
    where
      not_true :
          not (rel_type_eq r.rel_type unsupported) ≡ true
          → rel_type_eq r.rel_type unsupported ≡ false
      not_true k = ground arith

  push-found :
      (v : json.Json) (fields : Map json.Json)
      → find json listed_key (writer.object (insert listed_key v fields)) ≡ some v
  push-found v fields =
      find-object json writer laws listed_key (insert listed_key v fields)
      ∙ lookup-insert listed_key listed_key v fields

  abbrev Pushed : List Relation → json.Json → List json.Json → Type 0
  Pushed relations content items =
      (out : json.Json) × (push_relations json writer relations content ≡ some out)
      × (find json listed_key out ≡ some (writer.array items))

  push-all :
      (relations : List Relation) (content : json.Json) (items : List json.Json)
      → HasFields json writer laws content
      → find json listed_key content ≡ some (writer.array items)
      → all is_supported relations ≡ true
      → Pushed relations content (items ++ map (write_relation json writer) relations)
  push-all [] content items h e k = (
    content,
    unfold push_relations in refl,
    e ∙ ap (λ l. some (writer.array l)) (sym (append-nil items)),
  )
  push-all (r ∷ relations) content items h e k =
      let w = write_relation json writer r in
      let fields = insert listed_key (writer.array (items ++ w ∷ [])) h.0 in
      let (here, later) = both_true (is_supported r) (all is_supported relations) k in
      let seen : listed_in content ≡ some items = rw (e, laws.view_array items) refl in
      let (out, returned, found) =
        push-all relations (writer.object fields) (items ++ w ∷ [])
          (object-HasFields json writer laws fields)
          (push-found (writer.array (items ++ w ∷ [])) h.0) later in
      (
        out,
        push-one r relations content items h seen here ∙ returned,
        found
            ∙ ap (λ l. some (writer.array l))
                (append_assoc items (w ∷ []) (map (write_relation json writer) relations)),
      )

  -- The first relation makes the list.
  push-first :
      (r : Relation) (relations : List Relation) (content : json.Json)
      → HasFields json writer laws content
      → find json listed_key content ≡ none
      → all is_supported (r ∷ relations) ≡ true
      → Pushed (r ∷ relations) content (map (write_relation json writer) (r ∷ relations))
  push-first r relations content h e k =
      let w = write_relation json writer r in
      let fields = insert listed_key (writer.array (w ∷ [])) h.0 in
      let (here, later) = both_true (is_supported r) (all is_supported relations) k in
      let seen : listed_in content ≡ some [] = rw (e, laws.view_null) refl in
      let (out, returned, found) =
        push-all relations (writer.object fields) (w ∷ [])
          (object-HasFields json writer laws fields) (push-found (writer.array (w ∷ [])) h.0)
          later in
      (out, push-one r relations content [] h seen here ∙ returned, found)

  read_all-written :
      (relations : List Relation)
      → read_all json (map (write_relation json writer) relations) ≡ some relations
  unfolding read_all
  read_all-written [] = refl
  read_all-written (r ∷ relations) =
      rw (read_relation-write_relation json writer laws r, read_all-written relations) refl

  parse-found :
      (relations : List Relation) (content : json.Json)
      → find json listed_key content
        ≡ some (writer.array (map (write_relation json writer) relations))
      → parse_relations json content ≡ some (record { relations = relations; synthesized = false })
  unfolding parse_relations parse_listed get_array
  parse-found relations content e = rw (e, laws.view_array, read_all-written relations) refl

  add_some-Pushed :
      (r : Relation) (relations : List Relation) (content : json.Json)
      → Standing content
      → find json "m.relates_to" content ≡ none
      → all is_supported (r ∷ relations) ≡ true
      → (out : json.Json) × (add_relations json writer content
            (record { relations = r ∷ relations; synthesized = false })
          ≡ some out)
        × (find json listed_key out
            ≡ some (writer.array (map (write_relation json writer) (r ∷ relations))))
  unfolding add_relations add_some
  add_some-Pushed r relations content s unrelated k =
      let sorted = sort (record { edit = none; not_edit = none; reply = none }) (r ∷ relations) in
      let (first, room) = related sorted.not_edit content s unrelated in
      let second = replied sorted.not_edit sorted.reply first.out first.standing room in
      let third = edited sorted.not_edit sorted.edit second.out second.standing in
      let (out, returned, found) =
        push-first r relations third.out third.has_fields third.unlisted k in
      (out, rw (first.returned, second.returned, third.returned) returned, found)

  -- Relations that are added to a content are parsed from it again, in their order and with nothing lost, where
  -- there is one at least, all have a supported type and they are not synthesized, and the content is an object or
  -- null without relations and without a new content; adding them succeeds.
  pub parse_relations-add_relations :
      (r : Relation) (relations : List Relation) (content : json.Json)
      → HasFields json writer laws content
      → find json listed_key content ≡ none
      → find json "m.new_content" content ≡ none
      → find json "m.relates_to" content ≡ none
      → all is_supported (r ∷ relations) ≡ true
      → (out : json.Json) × (add_relations json writer content
            (record { relations = r ∷ relations; synthesized = false })
          ≡ some out)
        × (parse_relations json out
            ≡ some (record { relations = r ∷ relations; synthesized = false }))
  parse_relations-add_relations r relations content h unlisted unedited unrelated k =
      let (out, returned, found) =
        add_some-Pushed r relations content
          (record { has_fields = h; unlisted = unlisted; unedited = unedited }) unrelated k in
      (out, returned, parse-found (r ∷ relations) out found)
