-- ===== src/Samples.antt =====
-- Small instances of the third-party libraries, for the runs of the examples: JSON trees, and patterns
-- that match their own text, and a cipher that adds one to each byte.
use mtxclient.Shared.{
  ℕ, suc, ◌+◌, ◌%◌, ◌<◌, ◌≡◌, refl, ap, arith, String, Bool, true, Option, none, some, List, [],
  ◌∷◌, str_eq, if◌then◌else◌, ℤ, map, length, get_or, replicate, AreBytes, Map, lookup,
}
use mtxclient.Libraries.Openssl.{OpensslLibrary, OpensslLaws}
use mtxclient.Libraries.Json.{JsonLibrary, JsonWriter, JsonLaws, View}
use mtxclient.Libraries.Re2.{Re2Library}

mutual
  pub data Tree : Type 0 where
    text : String → Tree
    nothing : Tree
    flag : Bool → Tree
    int : ℤ → Tree
    arr : Trees → Tree
    obj : Fields → Tree

  pub data Trees : Type 0 where
    end : Trees
    item : Tree → Trees → Trees

  pub data Fields : Type 0 where
    none_left : Fields
    field : String → Tree → Fields → Fields

abbrev pub trees : Trees → List Tree
trees end = []
trees (item t ts) = t ∷ trees ts

abbrev pub fields : Fields → List (String × Tree)
fields none_left = []
fields (field k t fs) = (k, t) ∷ fields fs

abbrev pub tree_view : Tree → View Tree
tree_view (text s) = View.string s
tree_view nothing = View.null
tree_view (flag b) = View.boolean b
tree_view (int n) = View.number n
tree_view (arr ts) = View.array (trees ts)
tree_view (obj fs) = View.object (fields fs)

abbrev as_text : Tree → Option String
as_text (text s) = some s
as_text _ = none

abbrev find_text : String → String → Fields → Option String
find_text key default none_left = some default
find_text key default (field k t fs) = if str_eq k key then as_text t else find_text key default fs

abbrev tree_value : Tree → String → String → Option String
tree_value (obj fs) key default = find_text key default fs
tree_value _ key default = none

abbrev tree_int : Tree → Option ℤ
tree_int (int n) = some n
tree_int _ = none

abbrev pub sample_json : JsonLibrary
sample_json = record { Json = Tree; view = tree_view; value = tree_value; integer = tree_int }

abbrev to_trees : List Tree → Trees
to_trees [] = end
to_trees (t ∷ ts) = item t (to_trees ts)

abbrev to_fields : Map Tree → Fields
to_fields [] = none_left
to_fields ((k, t) ∷ fs) = field k t (to_fields fs)

abbrev pub sample_writer : JsonWriter sample_json
sample_writer = record {
  null = nothing;
  text = text;
  flag = flag;
  int = int;
  array = λ ts. arr (to_trees ts);
  object = λ fs. obj (to_fields fs);
}

trees-to_trees : (ts : List Tree) → trees (to_trees ts) ≡ ts
trees-to_trees [] = refl
trees-to_trees (t ∷ ts) = ap (λ l. t ∷ l) (trees-to_trees ts)

fields-to_fields : (fs : Map Tree) → fields (to_fields fs) ≡ fs
fields-to_fields [] = refl
fields-to_fields ((k, t) ∷ fs) = ap (λ l. (k, t) ∷ l) (fields-to_fields fs)

seen_same :
    (fs seen : Map Tree) → View.object (fields (to_fields fs)) ≡ View.object seen → fs ≡ seen
seen_same fs seen e = cc (e, fields-to_fields fs)

pub sample_writer-laws : JsonLaws sample_json sample_writer
sample_writer-laws = record {
  view_null = refl;
  view_text = λ s. refl;
  view_flag = λ b. refl;
  view_int = λ n small. refl;
  integer_int = λ n small. refl;
  view_array = λ ts. ap View.array (trees-to_trees ts);
  view_object = λ fs. (fields (to_fields fs), refl, λ key. ap (lookup key) (fields-to_fields fs));
  fields_seen = λ P fs seen e h. rw (← seen_same fs seen e) h;
}

abbrev pub sample_re2 : Re2Library
sample_re2 = record {
  Regex = String;
  compile = λ pattern case_sensitive. pattern;
  quote_meta = λ s. s;
  global_replace = λ s re rewrite. s;
  partial_match = λ s re. true;
  full_match = λ s re. str_eq s re;
}

abbrev sample_key : List ℕ → List ℕ
sample_key key = get_or key 0 0 ∷ replicate 63 7

abbrev pub sample_ssl : OpensslLibrary
sample_ssl = record {
  hkdf = λ key salt info. some (sample_key key);
  hmac = λ key message. length message % 256 ∷ get_or key 0 0 % 256 ∷ [];
  digest = λ message. some (length message % 256 ∷ []);
  pbkdf2 = λ password salt iterations size. replicate size 5;
  ctr_encrypt = λ key iv bytes. some (map (λ b. (b + 1) % 256) bytes);
  ctr_decrypt = λ key iv bytes. some (map (λ b. (b + 255) % 256) bytes);
}

length-shift : (bytes : List ℕ) → length (map (λ b. (b + 1) % 256) bytes) ≡ length bytes
length-shift [] = refl
length-shift (b ∷ bytes) = ap suc (length-shift bytes)

shift_bytes : (bytes : List ℕ) → AreBytes (map (λ b. (b + 1) % 256) bytes)
shift_bytes [] = tt
shift_bytes (b ∷ bytes) = (omega arith, shift_bytes bytes)

shift_back :
    (bytes : List ℕ)
    → AreBytes bytes
    → map (λ b. (b + 255) % 256) (map (λ b. (b + 1) % 256) bytes) ≡ bytes
shift_back [] h = refl
shift_back (b ∷ bytes) (small, h) = cc (back b small, shift_back bytes h)
  where
    back : (b : ℕ) → b < 256 → ((b + 1) % 256 + 255) % 256 ≡ b
    back b small = omega arith

pub sample_ssl-laws : OpensslLaws sample_ssl
sample_ssl-laws = record {
  hkdf_derives = λ key salt info a b c d. (sample_key key, refl, refl);
  hmac_bytes = λ key message. (omega arith, (omega arith, tt));
  digest_bytes = λ message. (length message % 256 ∷ [], refl, (omega arith, tt));
  ctr_inverse = λ key iv bytes m n small h. (
    map (λ b. (b + 1) % 256) bytes,
    refl,
    length-shift bytes,
    shift_bytes bytes,
    ap some (shift_back bytes h),
  );
}
