-- ===== src/PushRules/Stored/Lists.antt =====
-- The fields of a push rule that are written only where they differ from the default.
use mtxclient.Shared.{
  String, ◌≡◌, refl, not, Bool, true, false, Option, none, some, List, map, [], ◌∷◌, Map, lookup,
  str_eq, if◌then◌else◌, All,
}
use mtxclient.Libraries.Json.{JsonLibrary, JsonWriter, JsonLaws}
use mtxclient.Json.{get_bool, read_field}
use mtxclient.Json.Laws.{get_bool-flag, elements-array}
use mtxclient.Json.Fields.{given_field, value-object, all_of-map}
use mtxclient.PushRules.Types.{Action}
use mtxclient.PushRules.Stored.{value_at, each, listed_field, object_of}

pub actions_same : (actions : List Action) → All (λ a. a ≡ a) actions
actions_same [] = tt
actions_same (a ∷ actions) = (refl, actions_same actions)

module _ (json : JsonLibrary) (writer : JsonWriter json) (laws : JsonLaws json writer) where
  pub lookup-listed_field :
      {A : Type 0} (to_json : A → json.Json) (key asked : String) (items : List A)
      (rest : Map json.Json)
      → str_eq key asked ≡ false
      → lookup asked (listed_field json writer to_json key items rest) ≡ lookup asked rest
  unfolding lookup
  lookup-listed_field to_json key asked [] rest h = refl
  lookup-listed_field to_json key asked (a ∷ items) rest h = rw h refl

  -- A list is read from its field, or from the lack of one where it is empty.
  pub listed-read :
      {A : Type 0} (P : A → Type 0) (get : json.Json → Option A) (put : A → json.Json)
      (keep : A → A) (key : String) (rest : Map json.Json)
      → ((a : A) → P a → get (put a) ≡ some (keep a))
      → (items : List A) → All P items
      → str_eq key key ≡ true
      → lookup key rest ≡ none
      → each json get (lookup key (listed_field json writer put key items rest))
        ≡ some (map keep items)
  unfolding lookup
  listed-read P get put keep key rest back [] h self gone = rw gone refl
  listed-read P get put keep key rest back (a ∷ items) h self gone =
      rw (self, elements-array json writer laws (map put (a ∷ items)))
        (all_of-map json writer laws P get put keep back (a ∷ items) h)

  pub object_of-found :
      (key : String) (v : json.Json) (fields : Map json.Json)
      → lookup key fields ≡ some v
      → object_of json writer fields ≡ writer.object fields
  unfolding lookup
  object_of-found key v [] h = cc
  object_of-found key v (field ∷ fields) h = refl

  pub flag-read :
      (test default : Bool) (key : String) (fields rest : Map json.Json)
      → lookup key fields
        ≡ lookup key (given_field json writer test key (writer.flag (not default)) rest)
      → str_eq key key ≡ true
      → lookup key rest ≡ none
      → value_at json (get_bool json) default key (writer.object fields)
        ≡ some (if test then not default else default)
  unfolding lookup
  flag-read test default key fields rest there self gone =
      rw (value-object json writer laws (get_bool json) default key fields, there) (given test)
    where
      given :
          (test : Bool)
          → read_field json
              (get_bool json)
              default
              (lookup key (given_field json writer test key (writer.flag (not default)) rest))
            ≡ some (if test then not default else default)
      given true = rw self (get_bool-flag json writer laws (not default))
      given false = rw gone refl

  pub default_lem : (b : Bool) → (if b then true else false) ≡ b
  default_lem true = refl
  default_lem false = refl

  pub enabled_lem : (b : Bool) → (if not b then false else true) ≡ b
  enabled_lem true = refl
  enabled_lem false = refl
