-- ===== src/Relations/Examples.antt =====
-- Relations and mentions of small contents.
use mtxclient.Shared.{◌≡◌, refl, true, false, none, some, [], ◌∷◌, lookup}
use mtxclient.Samples.{
  Tree, text, obj, Fields, none_left, field, sample_json, sample_writer, sample_writer-laws,
}
use mtxclient.PushRules.Types.{Relation, thread, in_reply_to, replace}
use mtxclient.Json.{find, get_text, get_bool}
use mtxclient.Relations.{relation_type, default_relation, read_relation}
use mtxclient.Relations.Parse.{
  parse_relations, parse_reply, parse_reply_to, replied, parse_related, parse_second,
}
use mtxclient.Relations.Write.{add_relations}
use mtxclient.Relations.Write.Listed.{parse_relations-add_relations}
use mtxclient.Relations.Mentions.{
  Mentions, add_mentions, parse_mentions, parse_mentions-add_mentions,
}

abbrev hello : Fields
hello = field "body" (text "hello") none_left

abbrev in_thread : Relation
in_thread = record { rel_type = thread; event_id = "$t"; key = none; is_fallback = false }

abbrev the_reply : Relation
the_reply = record { rel_type = in_reply_to; event_id = "$r"; key = none; is_fallback = true }

parse_relations-add_relations_example :
    (out : Tree) × (add_relations sample_json sample_writer
        (obj hello)
        (record { relations = in_thread ∷ (the_reply ∷ []); synthesized = false })
      ≡ some out)
    × (parse_relations sample_json out
        ≡ some (record { relations = in_thread ∷ (the_reply ∷ []); synthesized = false }))
unfolding find lookup
parse_relations-add_relations_example =
    parse_relations-add_relations sample_json sample_writer sample_writer-laws in_thread
      (the_reply ∷ []) (obj hello) (_, refl) refl refl refl refl

abbrev sample_mentions : Mentions
sample_mentions = record { user_ids = "@a:b" ∷ []; room = true }

parse_mentions-add_mentions_example :
    (out : Tree) × (add_mentions sample_json sample_writer (obj hello) (some sample_mentions)
      ≡ some out)
    × (parse_mentions sample_json out ≡ some (some sample_mentions))
parse_mentions-add_mentions_example =
    parse_mentions-add_mentions sample_json sample_writer sample_writer-laws sample_mentions
      (obj hello) (_, refl)

abbrev reply_fields : Tree
reply_fields = obj (field "m.in_reply_to" (obj (field "event_id" (text "$r") none_left)) none_left)

-- A plain reply.
reply_run :
    parse_relations sample_json (obj (field "m.relates_to" reply_fields none_left))
    ≡ some (record {
      relations = record default_relation { rel_type = in_reply_to; event_id = "$r" } ∷ [];
      synthesized = true;
    })
unfolding parse_relations parse_reply parse_reply_to replied find get_text lookup
reply_run = refl

-- An edit of a reply: the reply is lost, and a relation without an event stands in its place.
edit_run :
    parse_relations sample_json (
      obj (
        field "m.new_content" (obj (field "m.relates_to" reply_fields none_left)) (
          field "m.relates_to"
            (obj (field "rel_type" (text "m.replace") (field "event_id" (text "$e") none_left)))
            none_left)))
    ≡ some (record {
      relations =
          record default_relation { rel_type = replace; event_id = "$e" } ∷ (default_relation ∷ []);
      synthesized = true;
    })
unfolding parse_relations parse_related parse_second replied read_relation relation_type find
    get_text get_bool lookup
edit_run = refl
