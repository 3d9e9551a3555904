-- ===== src/Relations.antt =====
-- lib/structs/events/common.cpp: the relations of an event, in its content. nlohmann::json is a parameter,
-- and `none` stands for its exceptions.
pub mod Parse
pub mod Write
pub mod Apply
pub mod Mentions
mod Examples
use mtxclient.Shared.{
  ℕ, String, Bool, true, false, not, ◌&&◌, ◌||◌, Option, none, some, List, [], ◌∷◌, ◌++◌, str_eq,
  if◌then◌else◌,
}
use mtxclient.Libraries.Json.{JsonLibrary}
use mtxclient.PushRules.Types.{
  Relation, RelationType, annotation, reference, replace, in_reply_to, thread, unsupported,
  rel_type_eq,
}
use mtxclient.Json.{
  read_field, find, contains, at_key, get_text, get_bool, get_array, is_text, ◌>>=◌,
}

pub record Relations : Type 0 where
  pub relations : List Relation
  pub synthesized : Bool

abbrev pub no_relations : Relations
no_relations = record { relations = []; synthesized = false }

abbrev pub default_relation : Relation
default_relation = record { rel_type = unsupported; event_id = ""; key = none; is_fallback = false }

-- The chain of tests in `from_json` of a `RelationType`.
unfoldable pub relation_type : String → RelationType
relation_type s =
    if str_eq s "m.annotation"
    then annotation
    else if str_eq s "m.reference"
    then reference
    else if str_eq s "m.replace"
    then replace
    else if str_eq s "im.nheko.relations.v1.in_reply_to" || str_eq s "m.in_reply_to"
    then in_reply_to
    else if str_eq s "m.thread"
    then thread
    else unsupported

-- `return_first_relation_matching`
unfoldable pub first_matching : RelationType → List Relation → Bool → Option Relation
first_matching t [] include_fallback = none
first_matching t (r ∷ rels) include_fallback =
    let later = first_matching t rels include_fallback in
    if rel_type_eq r.rel_type t && (include_fallback || not r.is_fallback) then some r else later

abbrev pub event_of : Option Relation → Option String
event_of none = none
event_of (some r) = some r.event_id

unfoldable pub reply_to : Relations → Bool → Option String
reply_to rels include_fallback =
    event_of (first_matching in_reply_to rels.relations include_fallback)

unfoldable pub replaces : Relations → Bool → Option String
replaces rels include_fallback = event_of (first_matching replace rels.relations include_fallback)

unfoldable pub references : Relations → Bool → Option String
references rels include_fallback =
    event_of (first_matching reference rels.relations include_fallback)

unfoldable pub thread_of : Relations → Bool → Option String
thread_of rels include_fallback = event_of (first_matching thread rels.relations include_fallback)

unfoldable pub annotates : Relations → Bool → Option Relation
annotates rels include_fallback = first_matching annotation rels.relations include_fallback

module _ (json : JsonLibrary) where
  abbrev pub some_text : json.Json → Option (Option String)
  some_text v = do s ← get_text json v; some (some s)

  abbrev pub read_relation_type : json.Json → Option RelationType
  read_relation_type v = do s ← get_text json v; some (relation_type s)

  -- `from_json` of a `Relation`
  unfoldable pub read_relation : json.Json → Option Relation
  read_relation obj = do
    rel_type ← read_field json read_relation_type unsupported (find json "rel_type" obj)
    event_id ← read_field json (get_text json) "" (find json "event_id" obj)
    key ← read_field json some_text none (find json "key" obj)
    is_fallback ←
        read_field json (get_bool json) false (find json "im.nheko.relations.v1.is_fallback" obj)
    some (record { rel_type = rel_type; event_id = event_id; key = key; is_fallback = is_fallback })
