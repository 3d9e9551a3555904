-- ===== src/Json/Maps.antt =====
-- Maps with text keys, read from a JSON object that was made.
use mtxclient.Shared.{
  String, ◌≡◌, refl, sym, ◌∙◌, Option, some, Map, lookup, [], ◌∷◌, ℤ, IsInt64, All, str_eq,
  if◌then◌else◌, Bool, true, false,
}
use mtxclient.Libraries.Json.{JsonLibrary, JsonWriter, JsonLaws}
use mtxclient.Json.{entries_of, get_map, ◌>>=◌}

-- The JSON of a `std::map<std::string, std::int64_t>`
abbrev pub int_fields : (json : JsonLibrary) → JsonWriter json → Map ℤ → Map json.Json
int_fields json writer [] = []
int_fields json writer ((key, n) ∷ m) = (key, writer.int n) ∷ int_fields json writer m

abbrev pub AreInt64 : Map ℤ → Type 0
AreInt64 m = All (λ e. IsInt64 e.1) m

module _ (json : JsonLibrary) where
  -- Each value is read as an integer of 64 bits.
  abbrev IsRead : String × json.Json → Type 0
  IsRead field = (n : ℤ) × (json.integer field.1 ≡ some n)

  read_if :
      (found : Bool) (v : json.Json) (n : ℤ) (l : Option ℤ) (r : Option json.Json)
      → json.integer v ≡ some n
      → l ≡ (r >>= json.integer)
      → (if found then some n else l) ≡ ((if found then some v else r) >>= json.integer)
  read_if true v n l r e same = sym e
  read_if false v n l r e same = same

  -- A map whose values are integers is read, and each key finds the integer of its field.
  entries_of-returned :
      (fields : Map json.Json)
      → All IsRead fields
      → (entries : Map ℤ) × (entries_of json json.integer fields ≡ some entries)
        × ((key : String) → lookup key entries ≡ (lookup key fields >>= json.integer))
  unfolding entries_of lookup
  entries_of-returned [] h = ([], refl, λ key. refl)
  entries_of-returned ((held, v) ∷ fields) ((n, e), h) =
      let (entries, returned, same) = entries_of-returned fields h in
      (
        (held, n) ∷ entries,
        rw (e, returned) refl,
        λ key. read_if (str_eq held key) v n (lookup key entries) (lookup key fields) e (same key),
      )

module _ (json : JsonLibrary) (writer : JsonWriter json) (laws : JsonLaws json writer) where
  fields-IsRead : (m : Map ℤ) → AreInt64 m → All (IsRead json) (int_fields json writer m)
  fields-IsRead [] h = tt
  fields-IsRead ((key, n) ∷ m) (small, h) = ((n, laws.integer_int n small), fields-IsRead m h)

  lookup-int_fields :
      (key : String) (m : Map ℤ)
      → AreInt64 m
      → (lookup key (int_fields json writer m) >>= json.integer) ≡ lookup key m
  unfolding lookup
  lookup-int_fields key [] h = refl
  lookup-int_fields key ((held, n) ∷ m) (small, h) = sym (
      read_if json (str_eq held key) (writer.int n) n (lookup key m)
        (lookup key (int_fields json writer m)) (laws.integer_int n small)
        (sym (lookup-int_fields key m h)))

  -- A map of 64-bit integers that is written is read as a map that finds the same.
  pub get_map-int_fields :
      (m : Map ℤ)
      → AreInt64 m
      → (entries : Map ℤ) × (get_map json json.integer (writer.object (int_fields json writer m))
          ≡ some entries)
        × ((key : String) → lookup key entries ≡ lookup key m)
  unfolding get_map
  get_map-int_fields m h =
      let (seen, e, same_fields) = laws.view_object (int_fields json writer m) in
      let (entries, returned, same) =
        entries_of-returned json seen
          (laws.fields_seen (IsRead json) (int_fields json writer m) seen e (fields-IsRead m h)) in
      (entries, rw e returned, λ key. same key ∙ rw (same_fields key) (lookup-int_fields key m h))
