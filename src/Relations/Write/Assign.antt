-- ===== src/Relations/Write/Assign.antt =====
-- Assignments to fields of fields: when they succeed, and what they leave as it was.
use mtxclient.Json.Laws.{find-object}
use mtxclient.Shared.{
  String, ◌≡◌, ◌∙◌, refl, sym, ap, false, none, some, List, [], ◌∷◌, Map, lookup, insert,
  lookup-insert, str_eq,
}
use text.Mathlib.TextPositions.{eq_refl}
use mtxclient.Libraries.Json.{JsonLibrary, JsonWriter, JsonLaws, View, object, null}
use mtxclient.Json.{find, field_of}
use mtxclient.Relations.Write.{fields_of, or_null, assign}

pub some-injective {ℓ} : {A : Type ℓ} {a b : A} → some a ≡ some b → a ≡ b
some-injective e = cc e

module _ (json : JsonLibrary) (writer : JsonWriter json) (laws : JsonLaws json writer) where
  -- The value is an object, or a null that becomes one; these are its fields.
  abbrev pub HasFields : json.Json → Type 0
  HasFields obj = (fields : Map json.Json) × (fields_of json writer (json.view obj) ≡ some fields)

  pub object-HasFields : (fields : Map json.Json) → HasFields (writer.object fields)
  object-HasFields fields = let (seen, e, same) = laws.view_object fields in (seen, rw e refl)

  field_of-fields :
      (key : String) (v : View json.Json) (fields : Map json.Json)
      → fields_of json writer v ≡ some fields
      → field_of json key v ≡ lookup key fields
  unfolding lookup
  field_of-fields key (object seen) fields e = ap (lookup key) (some-injective e)
  field_of-fields key null fields e = ap (lookup key) (some-injective e)
  field_of-fields key v fields e = cc

  pub find-HasFields :
      (key : String) (obj : json.Json) (h : HasFields obj) → find json key obj ≡ lookup key h.0
  unfolding find
  find-HasFields key obj (fields, e) = field_of-fields key (json.view obj) fields e

  -- Every value on the way is an object, a null or missing.
  abbrev pub CanAssign : List String → json.Json → Type 0
  CanAssign [] obj = Unit {0}
  CanAssign (key ∷ keys) obj =
      HasFields obj × CanAssign keys (or_null json writer (find json key obj))

  find-null : (key : String) → find json key writer.null ≡ none
  unfolding find
  find-null key = rw laws.view_null refl

  null-HasFields : HasFields writer.null
  null-HasFields = ([], rw laws.view_null refl)

  pub null-CanAssign : (keys : List String) → CanAssign keys writer.null
  null-CanAssign [] = tt
  null-CanAssign (key ∷ keys) = (null-HasFields, rw (find-null key) (null-CanAssign keys))

  pub assign-nil : (v obj inner : json.Json) → assign json writer [] v obj ≡ some inner → inner ≡ v
  unfolding assign
  assign-nil v obj inner e = cc e

  assign-cons :
      (key : String) (keys : List String) (value obj inner : json.Json) (h : HasFields obj)
      → assign json writer keys value (or_null json writer (find json key obj)) ≡ some inner
      → assign json writer (key ∷ keys) value obj ≡ some (writer.object (insert key inner h.0))
  assign-cons key keys value obj inner (fields, e) returned =
      assign-unfold (ap (or_null json writer) (sym (find-HasFields key obj (fields, e))))
    where
      assign-unfold :
          or_null json writer (lookup key fields) ≡ or_null json writer (find json key obj)
          → assign json writer (key ∷ keys) value obj
            ≡ some (writer.object (insert key inner fields))
      assign-unfold same = unfold assign in rw (e, same, returned) refl

  assign-some :
      (keys : List String) (value obj : json.Json)
      → CanAssign keys obj
      → (out : json.Json) × (assign json writer keys value obj ≡ some out)
  assign-some [] value obj h = (value, unfold assign in refl)
  assign-some (key ∷ keys) value obj (h, k) =
      let (inner, returned) = assign-some keys value (or_null json writer (find json key obj)) k in
      (writer.object (insert key inner h.0), assign-cons key keys value obj inner h returned)

  -- The outcome of an assignment that can be made.
  pub record Assigned (key : String) (keys : List String) (value obj : json.Json) : Type 0 where
    pub out : json.Json
    pub returned : assign json writer (key ∷ keys) value obj ≡ some out
    pub has_fields : HasFields out
    pub inner : json.Json
    pub assigned :
        assign json writer keys value (or_null json writer (find json key obj)) ≡ some inner
    pub found : find json key out ≡ some inner
    pub kept :
        (other : String) → str_eq key other ≡ false → find json other out ≡ find json other obj

  pub assign-Assigned :
      (key : String) (keys : List String) (value obj : json.Json)
      → CanAssign (key ∷ keys) obj
      → Assigned key keys value obj
  assign-Assigned key keys value obj (h, k) =
      let (inner, assigned) = assign-some keys value (or_null json writer (find json key obj)) k in
      record {
        out = writer.object (insert key inner h.0);
        returned = assign-cons key keys value obj inner h assigned;
        has_fields = object-HasFields (insert key inner h.0);
        inner = inner;
        assigned = assigned;
        found =
            find-object json writer laws key (insert key inner h.0)
            ∙ lookup-insert key key inner h.0
            ∙ rw (eq_refl key) refl;
        kept = λ other differs.
            find-object json writer laws other (insert key inner h.0)
            ∙ lookup-insert key other inner h.0
            ∙ rw differs (sym (find-HasFields other obj h));
      }
