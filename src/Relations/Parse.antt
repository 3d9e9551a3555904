-- ===== src/Relations/Parse.antt =====
-- `parse_relations`: the relations in a content.
use mtxclient.Shared.{
  String, Bool, true, false, ◌&&◌, Option, none, some, List, [], ◌∷◌, if◌then◌else◌,
}
use mtxclient.Libraries.Json.{JsonLibrary}
use mtxclient.PushRules.Types.{Relation, in_reply_to, replace, rel_type_eq}
use mtxclient.Json.{
  read_field, find, contains, at_key, get_text, get_bool, get_array, is_text, ◌>>=◌,
}
use mtxclient.Relations.{Relations, no_relations, default_relation, read_relation}

module _ (json : JsonLibrary) where
  -- `get<std::vector<Relation>>()`
  unfoldable pub read_all : List json.Json → Option (List Relation)
  read_all [] = some []
  read_all (v ∷ items) = do some ((← read_relation json v) ∷ (← read_all items))

  -- The relations that nheko writes.
  unfoldable pub parse_listed : json.Json → Option Relations
  parse_listed v = do
    items ← get_array json v
    relations ← read_all items
    some (record { relations = relations; synthesized = false })

  abbrev has_type : String → Option json.Json → Bool
  has_type s none = false
  has_type s (some v) = is_text json s v

  -- The event that is replied to.
  unfoldable pub replied : json.Json → Option String
  replied relates_to = do
    reply ← at_key json "m.in_reply_to" relates_to
    event_id ← at_key json "event_id" reply
    get_text json event_id

  -- A reply in a thread, where the thread's relation comes first.
  unfoldable pub reply_in_thread : json.Json → Relation → Option Relations
  reply_in_thread relates_to r = do
    is_fallback ← read_field json (get_bool json) false (find json "is_falling_back" relates_to)
    in_thread ← read_relation json relates_to
    some (record {
      relations = in_thread ∷ (record r { is_fallback = is_fallback } ∷ []);
      synthesized = true;
    })

  -- The branch for a reply, which may stand in a thread.
  unfoldable pub parse_reply_to : json.Json → String → Option Relations
  parse_reply_to relates_to event_id =
      let r = record default_relation { event_id = event_id; rel_type = in_reply_to } in
      if has_type "m.thread" (find json "rel_type" relates_to)
        && contains json "event_id" relates_to
      then reply_in_thread relates_to r
      else some (record { relations = r ∷ []; synthesized = true })

  unfoldable pub parse_reply : json.Json → Option Relations
  parse_reply relates_to = replied relates_to >>= parse_reply_to relates_to

  -- What a replacement says of the relations of its new content. For a reply the code fills the first relation
  -- once more and adds an empty one.
  unfoldable pub parse_second : Relation → Option json.Json → Option (List Relation)
  parse_second r none = some (r ∷ [])
  parse_second r (some second) =
      if contains json "m.in_reply_to" second
      then replied second >>= (λ event_id. some (r ∷ (default_relation ∷ [])))
      else read_relation json second >>= (λ r2. some (r ∷ (r2 ∷ [])))

  -- The branch for a relation without a reply.
  unfoldable pub parse_related : json.Json → json.Json → Option Relations
  parse_related content relates_to = do
    r ← read_relation json relates_to
    let second = find json "m.new_content" content >>= find json "m.relates_to"
    relations ← parse_second r (if rel_type_eq r.rel_type replace then second else none)
    some (record { relations = relations; synthesized = true })

  abbrev parse_relates_to : json.Json → Option json.Json → Option Relations
  parse_relates_to content none = some no_relations
  parse_relates_to content (some relates_to) =
      if contains json "m.in_reply_to" relates_to
      then parse_reply relates_to
      else parse_related content relates_to

  abbrev parse_content : json.Json → Option json.Json → Option Relations
  parse_content content (some listed) = parse_listed listed
  parse_content content none = parse_relates_to content (find json "m.relates_to" content)

  -- The handler of the code catches JSON values, which nothing throws, so that an exception leaves the function.
  unfoldable pub parse_relations : json.Json → Option Relations
  parse_relations content =
      parse_content content (find json "im.nheko.relations.v1.relations" content)
