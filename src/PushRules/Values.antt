-- ===== src/PushRules/Values.antt =====
-- The values of a flattened event in lib/structs/pushrules.cpp, and results that may be exceptions.
use mtxclient.Shared.{
  String, Bool, true, false, ◌&&◌, Option, none, some, List, [], ◌∷◌, str_eq, ℤ, eq_ℤ, Map,
}
use mtxclient.Libraries.Json.{JsonLibrary, View}
use mtxclient.PushRules.Types.{NonCompoundJsonValue}

-- `push_json_value`
pub data PushJsonValue : Type 0 where
  string : String → PushJsonValue
  int64 : ℤ → PushJsonValue
  boolean : Bool → PushJsonValue
  nullptr : PushJsonValue
  vector : List NonCompoundJsonValue → PushJsonValue

abbrev pub Event : Type 0
Event = Map PushJsonValue

-- The related events of one relation type.
pub record RelatedEvents : Type 0 where
  pub fallbacks : List Event
  pub events : List Event

-- What a call returns: a value, or the exception that ends the evaluation.
pub data Outcome {ℓ} (A : Type ℓ) : Type ℓ where
  ok : A → Outcome A
  bad_variant_access : Outcome A
  type_error : Outcome A

infixl 5 ◌>>=◌
abbrev pub ◌>>=◌ {ℓ κ} : {A : Type ℓ} {B : Type κ} → Outcome A → (A → Outcome B) → Outcome B
ok a >>= f = f a
bad_variant_access >>= f = bad_variant_access
type_error >>= f = type_error

-- `push_json_value(e)` for an alternative `e` of the smaller variant
abbrev pub widen : NonCompoundJsonValue → PushJsonValue
widen (NonCompoundJsonValue.string s) = PushJsonValue.string s
widen (NonCompoundJsonValue.int64 n) = PushJsonValue.int64 n
widen (NonCompoundJsonValue.boolean b) = PushJsonValue.boolean b
widen NonCompoundJsonValue.nullptr = PushJsonValue.nullptr

abbrev bool_eq : Bool → Bool → Bool
bool_eq true true = true
bool_eq false false = true
bool_eq _ _ = false

-- `==` of two `non_compound_json_value`
abbrev pub non_compound_eq : NonCompoundJsonValue → NonCompoundJsonValue → Bool
non_compound_eq (NonCompoundJsonValue.string s) (NonCompoundJsonValue.string t) = str_eq s t
non_compound_eq (NonCompoundJsonValue.int64 m) (NonCompoundJsonValue.int64 n) = eq_ℤ m n
non_compound_eq (NonCompoundJsonValue.boolean b) (NonCompoundJsonValue.boolean c) = bool_eq b c
non_compound_eq NonCompoundJsonValue.nullptr NonCompoundJsonValue.nullptr = true
non_compound_eq _ _ = false

abbrev vector_eq : List NonCompoundJsonValue → List NonCompoundJsonValue → Bool
vector_eq [] [] = true
vector_eq (x ∷ xs) (y ∷ ys) = non_compound_eq x y && vector_eq xs ys
vector_eq _ _ = false

-- `==` of two `push_json_value`
abbrev pub push_json_eq : PushJsonValue → PushJsonValue → Bool
push_json_eq (PushJsonValue.string s) (PushJsonValue.string t) = str_eq s t
push_json_eq (PushJsonValue.int64 m) (PushJsonValue.int64 n) = eq_ℤ m n
push_json_eq (PushJsonValue.boolean b) (PushJsonValue.boolean c) = bool_eq b c
push_json_eq PushJsonValue.nullptr PushJsonValue.nullptr = true
push_json_eq (PushJsonValue.vector xs) (PushJsonValue.vector ys) = vector_eq xs ys
push_json_eq _ _ = false

module _ (json : JsonLibrary) where
  open json use {Json, view}

  -- `to_non_compound_json_value`
  unfoldable pub to_non_compound_json_value : Json → Option NonCompoundJsonValue
  to_non_compound_json_value val = elim (view val) [
    | View.string s ↦ some (NonCompoundJsonValue.string s)
    | View.null ↦ some NonCompoundJsonValue.nullptr
    | View.boolean b ↦ some (NonCompoundJsonValue.boolean b)
    | View.number n ↦ some (NonCompoundJsonValue.int64 n)
    | _ ↦ none
  ]
