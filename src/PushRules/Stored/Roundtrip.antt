-- ===== src/PushRules/Stored/Roundtrip.antt =====
-- Push conditions and actions that are written are read back.
use mtxclient.Shared.{
  String, ◌≡◌, refl, ap, ◌∙◌, Bool, true, false, not, Option, none, some, [], ◌∷◌, Map, lookup,
  str_eq, IsInt64,
}
use mtxclient.Libraries.Json.{JsonLibrary, JsonWriter, JsonLaws}
use mtxclient.Json.{find, read_field, get_text, get_bool}
use mtxclient.Json.Laws.{find-object, get_text-text, get_bool-flag, get_text-object}
use mtxclient.Json.Fields.{filled_field, given_field, some_field, text-read, or_empty, value-object}
use mtxclient.PushRules.Types.{
  NonCompoundJsonValue, PushCondition, Action, RelationType, annotation, reference, replace,
  in_reply_to, thread, unsupported, rel_type_eq,
}
use mtxclient.PushRules.Values.{to_non_compound_json_value}
use mtxclient.PushRules.Stored.{value_at, value_of, read_action, write_value, write_action}
use mtxclient.Relations.{read_relation_type}
use mtxclient.Relations.Write.{relation_name}
use mtxclient.Relations.Write.Roundtrip.{relation_type-relation_name}

-- A value whose number is an `int64_t`.
abbrev pub ValueFits : Option NonCompoundJsonValue → Type 0
ValueFits (some (NonCompoundJsonValue.int64 n)) = IsInt64 n
ValueFits _ = Unit

-- What is left of an action and of a condition that are written: `to_json` has no `coalesce` and no
-- `include_fallback`.
abbrev pub kept_action : Action → Action
kept_action Action.coalesce = Action.notify
kept_action a = a

abbrev pub kept_condition : PushCondition → PushCondition
kept_condition c = record c { include_fallback = false }

module _ (json : JsonLibrary) (writer : JsonWriter json) (laws : JsonLaws json writer) where
  value-seen :
      (v : NonCompoundJsonValue)
      → ValueFits (some v)
      → to_non_compound_json_value json (write_value json writer v) ≡ some v
  unfolding to_non_compound_json_value
  value-seen (NonCompoundJsonValue.string s) h =
      rw (to_non_compound_json_value, laws.view_text s) refl
  value-seen (NonCompoundJsonValue.int64 n) h =
      rw (to_non_compound_json_value, laws.view_int n h) refl
  value-seen (NonCompoundJsonValue.boolean b) h =
      rw (to_non_compound_json_value, laws.view_flag b) refl
  value-seen NonCompoundJsonValue.nullptr h = rw (to_non_compound_json_value, laws.view_null) refl

  pub value-back :
      (v : Option NonCompoundJsonValue)
      → ValueFits v
      → value_of json
          (lookup "value" (some_field json writer (write_value json writer) "value" v []))
        ≡ v
  unfolding lookup
  value-back none h = refl
  value-back (some v) h = value-seen v h

  -- A text that is written where it is not empty is read, with the empty text as the default.
  pub text-back :
      (key s : String) (fields rest : Map json.Json)
      → lookup key fields ≡ lookup key (filled_field json writer key s rest)
      → str_eq key key ≡ true
      → lookup key rest ≡ none
      → value_at json (get_text json) "" key (writer.object fields) ≡ some s
  text-back key s fields rest there self gone =
      rw (value-object json writer laws (get_text json) "" key fields, there)
        (text-read json writer laws key "" s rest self gone ∙ ap some (or_empty json writer laws s))

  -- A tweak is read from its name and its value.
  sound-read :
      (s : String)
      → read_action json (write_action json writer (Action.set_tweak_sound s))
        ≡ some (Action.set_tweak_sound s)
  unfolding read_action write_action lookup
  sound-read s =
      let fields : Map json.Json =
        ("set_tweak", writer.text "sound") ∷ ("value", writer.text s) ∷ [] in
      rw
        (
          get_text-object json writer laws fields,
          find-object json writer laws "set_tweak" fields,
          get_text-text json writer laws "sound",
          value-object json writer laws (get_text json) "default" "value" fields,
          get_text-text json writer laws s,
        )
        refl

  highlight-read :
      (b : Bool)
      → read_action json (write_action json writer (Action.set_tweak_highlight b))
        ≡ some (Action.set_tweak_highlight b)
  unfolding read_action write_action lookup
  highlight-read b =
      let fields : Map json.Json =
        ("set_tweak", writer.text "highlight")
        ∷ given_field json writer (not b) "value" (writer.flag false) [] in
      rw
        (
          get_text-object json writer laws fields,
          find-object json writer laws "set_tweak" fields,
          get_text-text json writer laws "highlight",
          value-object json writer laws (get_bool json) true "value" fields,
          given b,
        )
        refl
    where
      given :
          (b : Bool)
          → read_field json (get_bool json) true (
              lookup "value" (
                ("set_tweak", writer.text "highlight")
                ∷ given_field json writer (not b) "value" (writer.flag false) []))
            ≡ some b
      given true = refl
      given false = get_bool-flag json writer laws false

  coalesce-read : read_action json (write_action json writer Action.coalesce) ≡ some Action.notify
  unfolding read_action write_action get_text find
  coalesce-read = rw laws.view_null refl

  pub read_action-write_action :
      (a : Action) → read_action json (write_action json writer a) ≡ some (kept_action a)
  unfolding read_action write_action
  read_action-write_action Action.notify = rw (get_text-text json writer laws "notify") refl
  read_action-write_action Action.dont_notify =
      rw (get_text-text json writer laws "dont_notify") refl
  read_action-write_action Action.coalesce = coalesce-read
  read_action-write_action (Action.set_tweak_sound s) = sound-read s
  read_action-write_action (Action.set_tweak_highlight b) = highlight-read b

  pub type-back :
      (t : RelationType) (fields rest : Map json.Json)
      → lookup "rel_type" fields
        ≡ lookup "rel_type" (
            given_field json writer
              (not (rel_type_eq t unsupported))
              "rel_type"
              (writer.text (relation_name t))
              rest)
      → lookup "rel_type" rest ≡ none
      → value_at json (read_relation_type json) unsupported "rel_type" (writer.object fields)
        ≡ some t
  unfolding lookup
  type-back t fields rest there gone =
      rw
        (
          value-object json writer laws (read_relation_type json) unsupported "rel_type" fields,
          there,
        )
        (given t)
    where
      given :
          (t : RelationType)
          → read_field json (read_relation_type json) unsupported (
              lookup "rel_type" (
                given_field json writer
                  (not (rel_type_eq t unsupported))
                  "rel_type"
                  (writer.text (relation_name t))
                  rest))
            ≡ some t
      given unsupported = rw gone refl
      given annotation =
          rw (get_text-text json writer laws _) (ap some (relation_type-relation_name annotation))
      given reference =
          rw (get_text-text json writer laws _) (ap some (relation_type-relation_name reference))
      given replace =
          rw (get_text-text json writer laws _) (ap some (relation_type-relation_name replace))
      given in_reply_to =
          rw (get_text-text json writer laws _) (ap some (relation_type-relation_name in_reply_to))
      given thread =
          rw (get_text-text json writer laws _) (ap some (relation_type-relation_name thread))
