-- ===== src/PushRules/Stored/Conditions.antt =====
-- A push condition that is written is read back.
use mtxclient.Shared.{String, ◌≡◌, refl, ◌∙◌, not, false, none, some, [], lookup, str_eq}
use mtxclient.Libraries.Json.{JsonLibrary, JsonWriter, JsonLaws}
use mtxclient.Json.{find, get_text, get_bool}
use mtxclient.Json.Laws.{find-object, get_text-text}
use mtxclient.Json.Fields.{lookup-filled_field, lookup-given_field, lookup-some_field, value-object}
use mtxclient.PushRules.Types.{PushCondition, unsupported, rel_type_eq}
use mtxclient.PushRules.Stored.{
  value_at, value_of, read_condition, write_value, value_fields, rel_type_fields, is_fields,
  pattern_fields, condition_fields, write_condition,
}
use mtxclient.PushRules.Stored.Roundtrip.{
  ValueFits, kept_condition, text-back, type-back, value-back,
}
use mtxclient.Relations.{read_relation_type}
use mtxclient.Relations.Write.{relation_name}

module _ (json : JsonLibrary) (writer : JsonWriter json) (laws : JsonLaws json writer) where
  module _ (c : PushCondition) where
    value-skip :
        (key : String) → str_eq "value" key ≡ false → lookup key (value_fields json writer c) ≡ none
    unfolding lookup
    value-skip key v =
        lookup-some_field json writer laws (write_value json writer) "value" key c.value [] v

    type-skip :
        (key : String)
        → str_eq "rel_type" key ≡ false
        → lookup key (rel_type_fields json writer c) ≡ lookup key (value_fields json writer c)
    type-skip key t =
        lookup-given_field json writer laws (not (rel_type_eq c.rel_type unsupported)) "rel_type"
          key (writer.text (relation_name c.rel_type)) (value_fields json writer c) t

    is-skip :
        (key : String)
        → str_eq "is" key ≡ false
        → lookup key (is_fields json writer c) ≡ lookup key (rel_type_fields json writer c)
    is-skip key i =
        lookup-filled_field json writer laws "is" key c.is (rel_type_fields json writer c) i

    pattern-skip :
        (key : String)
        → str_eq "pattern" key ≡ false
        → lookup key (pattern_fields json writer c) ≡ lookup key (is_fields json writer c)
    pattern-skip key p =
        lookup-filled_field json writer laws "pattern" key c.pattern (is_fields json writer c) p

    key-skip :
        (key : String)
        → str_eq "kind" key ≡ false
        → str_eq "key" key ≡ false
        → lookup key (condition_fields json writer c) ≡ lookup key (pattern_fields json writer c)
    unfolding lookup
    key-skip key k l =
        rw
          (k, lookup-filled_field json writer laws "key" key c.key (pattern_fields json writer c) l)
          refl

    kind-read : find json "kind" (write_condition json writer c) ≡ some (writer.text c.kind)
    unfolding write_condition lookup
    kind-read = find-object json writer laws "kind" (condition_fields json writer c)

    key-read : value_at json (get_text json) "" "key" (write_condition json writer c) ≡ some c.key
    unfolding write_condition lookup
    key-read =
        text-back json writer laws "key" c.key (condition_fields json writer c)
          (pattern_fields json writer c) refl refl
          (pattern-skip "key" refl
            ∙ is-skip "key" refl
            ∙ type-skip "key" refl
            ∙ value-skip "key" refl)

    pattern-read :
        value_at json (get_text json) "" "pattern" (write_condition json writer c) ≡ some c.pattern
    unfolding write_condition
    pattern-read =
        text-back json writer laws "pattern" c.pattern (condition_fields json writer c)
          (is_fields json writer c) (key-skip "pattern" refl refl) refl
          (is-skip "pattern" refl ∙ type-skip "pattern" refl ∙ value-skip "pattern" refl)

    is-read : value_at json (get_text json) "" "is" (write_condition json writer c) ≡ some c.is
    unfolding write_condition
    is-read =
        text-back json writer laws "is" c.is (condition_fields json writer c)
          (rel_type_fields json writer c) (key-skip "is" refl refl ∙ pattern-skip "is" refl) refl
          (type-skip "is" refl ∙ value-skip "is" refl)

    type-read :
        value_at json
          (read_relation_type json)
          unsupported
          "rel_type"
          (write_condition json writer c)
        ≡ some c.rel_type
    unfolding write_condition
    type-read =
        type-back json writer laws c.rel_type (condition_fields json writer c)
          (value_fields json writer c)
          (key-skip "rel_type" refl refl ∙ pattern-skip "rel_type" refl ∙ is-skip "rel_type" refl)
          (value-skip "rel_type" refl)

    fallback-read :
        value_at json (get_bool json) false "include_fallback" (write_condition json writer c)
        ≡ some false
    unfolding write_condition
    fallback-read =
        rw
          (
            value-object json writer laws (get_bool json) false "include_fallback"
                (condition_fields json writer c),
            key-skip "include_fallback" refl refl,
            pattern-skip "include_fallback" refl,
            is-skip "include_fallback" refl,
            type-skip "include_fallback" refl,
            value-skip "include_fallback" refl,
          )
          refl

    value-read :
        ValueFits c.value
        → value_of json (find json "value" (write_condition json writer c)) ≡ c.value
    unfolding write_condition
    value-read h =
        rw
          (
            find-object json writer laws "value" (condition_fields json writer c),
            key-skip "value" refl refl,
            pattern-skip "value" refl,
            is-skip "value" refl,
            type-skip "value" refl,
          )
          (value-back json writer laws c.value h)

    -- A condition is read as itself, but that `include_fallback` is not written.
    pub read_condition-write_condition :
        ValueFits c.value
        → read_condition json (write_condition json writer c) ≡ some (kept_condition c)
    unfolding read_condition
    read_condition-write_condition h =
        rw
          (
            kind-read,
            get_text-text json writer laws c.kind,
            key-read,
            pattern-read,
            is-read,
            type-read,
            fallback-read,
            value-read h,
          )
          refl
