-- ===== src/Http/Paths.antt =====
-- What a server reads in the path of a call.
pub mod Rooms
pub mod Rules
pub mod Users
use mathlib.Core.List.{append-nil}
use mtxclient.Shared.{
  ℕ, ◌≡◌, refl, sym, ap, ◌∙◌, Bool, Bool-cases, inl, inr, true, false, not, ◌&&◌, ◌||◌, List, [],
  ◌∷◌, ◌++◌, map, all, arith, ◌==◌, if◌then◌else◌, AreBytes, codes,
}
use mtxclient.Http.Push.{query_of}
use mtxclient.Utils.{is_kept, url_encode, split_slashes}
use mtxclient.Utils.Urls.{
  percent_decode, percent_decode-plain, percent_decode-url_encode, kept_is_plain, url_encode-all,
}
use mtxclient.Utils.Media.{no_slash, split_slashes-plain, split_slashes-slash}

-- The path is what is before the query.
unfoldable pub path_of : List ℕ → List ℕ
path_of [] = []
path_of (c ∷ s) = let rest = path_of s in if c == b'?' then [] else c ∷ rest

abbrev pub tail : List (List ℕ) → List (List ℕ)
tail [] = []
tail (part ∷ parts) = parts

-- The decoded parts behind the first slash.
unfoldable pub read_path : List ℕ → List (List ℕ)
read_path endpoint = map percent_decode (tail (split_slashes (path_of endpoint)))

-- A part of a path: a word of the code, an argument that is encoded, or one that is joined to a word.
pub data Part : Type 0 where
  word : List ℕ → Part
  given : List ℕ → Part
  joined : List ℕ → List ℕ → Part

abbrev pub value : Part → List ℕ
value (word w) = w
value (given x) = x
value (joined w x) = w ++ x

abbrev pub written : Part → List ℕ
written (word w) = w
written (given x) = url_encode x
written (joined w x) = w ++ url_encode x

abbrev pub write_path : List Part → List ℕ → List ℕ
write_path [] query = query
write_path (part ∷ parts) query = b'/' ∷ (written part ++ write_path parts query)

-- Words need no encoding, and arguments are strings of bytes.
abbrev pub Fits : List Part → Type 0
Fits [] = Unit {0}
Fits (word w ∷ parts) = (all is_kept w ≡ true) × Fits parts
Fits (given x ∷ parts) = AreBytes x × Fits parts
Fits (joined w x ∷ parts) = (all is_kept w ≡ true) × AreBytes x × Fits parts

abbrev pub IsQuery : List ℕ → Type 0
IsQuery [] = Unit {0}
IsQuery (c ∷ s) = c ≡ b'?'

abbrev pub is_safe : ℕ → Bool
is_safe c = is_kept c || c == b'%'

safe_is_plain : (c : ℕ) → is_safe c ≡ true → ((c == b'/') ≡ false) × ((c == b'?') ≡ false)
unfolding is_kept
safe_is_plain c h = ground arith

no_slash_of_safe : (s : List ℕ) → all is_safe s ≡ true → no_slash s ≡ true
no_slash_of_safe [] h = refl
no_slash_of_safe (c ∷ s) h = elim (Bool-cases (is_safe c)) [
  | inl safe ↦ rw ((safe_is_plain c safe).0) (no_slash_of_safe s (rw safe at h))
  | inr unsafe ↦ cc (rw unsafe at h)
]

path_of-safe : (s t : List ℕ) → all is_safe s ≡ true → path_of (s ++ t) ≡ s ++ path_of t
unfolding path_of
path_of-safe [] t h = refl
path_of-safe (c ∷ s) t h = elim (Bool-cases (is_safe c)) [
  | inl safe ↦ rw ((safe_is_plain c safe).1) (ap (λ u. c ∷ u) (path_of-safe s t (rw safe at h)))
  | inr unsafe ↦ cc (rw unsafe at h)
]

pub safe_of_kept : (s : List ℕ) → all is_kept s ≡ true → all is_safe s ≡ true
safe_of_kept [] h = refl
safe_of_kept (c ∷ s) h = ground (arith, safe_of_kept s)

safe_append :
    (s t : List ℕ) → all is_kept s ≡ true → all is_safe t ≡ true → all is_safe (s ++ t) ≡ true
safe_append [] t h k = k
safe_append (c ∷ s) t h k = ground (arith, safe_append s t)

written-safe :
    (part : Part) (parts : List Part) → Fits (part ∷ parts) → all is_safe (written part) ≡ true
written-safe (word w) parts h = safe_of_kept w h.0
written-safe (given x) parts h = url_encode-all x h.0
written-safe (joined w x) parts h = safe_append w (url_encode x) h.0 (url_encode-all x h.1)

Fits-tail : (part : Part) (parts : List Part) → Fits (part ∷ parts) → Fits parts
Fits-tail (word w) parts h = h.1
Fits-tail (given x) parts h = h.1
Fits-tail (joined w x) parts h = h.2

path_of-query : (query : List ℕ) → IsQuery query → path_of query ≡ []
unfolding path_of
path_of-query [] h = refl
path_of-query (c ∷ s) h = rw h refl

path_of-write_path :
    (parts : List Part) (query : List ℕ)
    → Fits parts
    → IsQuery query
    → path_of (write_path parts query) ≡ write_path parts []
path_of-write_path [] query h k = path_of-query query k
path_of-write_path (part ∷ parts) query h k =
    path_of-slash (written part ++ write_path parts query)
    ∙ ap (λ s. b'/' ∷ s)
        (path_of-safe (written part) (write_path parts query) (written-safe part parts h)
          ∙ ap (λ s. written part ++ s) (path_of-write_path parts query (Fits-tail part parts h) k))
  where
    path_of-slash : (s : List ℕ) → path_of (b'/' ∷ s) ≡ b'/' ∷ path_of s
    path_of-slash s = unfold path_of in refl

split_slashes-part :
    (w : List ℕ) (parts : List Part)
    → no_slash w ≡ true
    → split_slashes (w ++ write_path parts []) ≡ w ∷ tail (split_slashes (write_path parts []))
unfolding split_slashes
split_slashes-part w [] h = rw (append-nil w) (split_slashes-plain w h)
split_slashes-part w (part ∷ parts) h = split_slashes-slash w _ h

percent_decode-word :
    (w t : List ℕ) → all is_kept w ≡ true → percent_decode (w ++ t) ≡ w ++ percent_decode t
percent_decode-word [] t h = refl
percent_decode-word (c ∷ w) t h = elim (Bool-cases (is_kept c)) [
  | inl kept ↦
      percent_decode-plain c (w ++ t) (kept_is_plain c kept)
      ∙ ap (λ s. c ∷ s) (percent_decode-word w t (rw kept at h))
  | inr other ↦ cc (rw other at h)
]

percent_decode-written :
    (part : Part) (parts : List Part)
    → Fits (part ∷ parts)
    → percent_decode (written part) ≡ value part
percent_decode-written (word w) parts h =
    ap percent_decode (sym (append-nil w))
    ∙ percent_decode-word w [] h.0
    ∙ unfold percent_decode in append-nil w
percent_decode-written (given x) parts h = percent_decode-url_encode x h.0
percent_decode-written (joined w x) parts h =
    percent_decode-word w (url_encode x) h.0 ∙ ap (λ s. w ++ s) (percent_decode-url_encode x h.1)

read_parts :
    (parts : List Part)
    → Fits parts
    → map percent_decode (tail (split_slashes (write_path parts []))) ≡ map value parts
read_parts [] h = unfold split_slashes in refl
read_parts (part ∷ parts) h =
    ap (λ s. map percent_decode (tail s)) (split_slashes-slash [] _ refl)
    ∙ ap (map percent_decode) (
        split_slashes-part (written part) parts
          (no_slash_of_safe (written part) (written-safe part parts h)))
    ∙ cc (percent_decode-written part parts h, read_parts parts (Fits-tail part parts h))

-- A server that splits the path at its slashes and decodes the parts reads the words and the arguments.
pub read_path-write_path :
    (parts : List Part) (query : List ℕ)
    → Fits parts
    → IsQuery query
    → read_path (write_path parts query) ≡ map value parts
unfolding read_path
read_path-write_path parts query h k = rw (path_of-write_path parts query h k) (read_parts parts h)

-- What is read in front of the other words and arguments, and how it is written.
abbrev pub in_client : List (List ℕ) → List (List ℕ)
in_client parts = codes "client" ∷ (codes "v3" ∷ parts)

abbrev pub of_client : List Part → List Part
of_client parts = word (codes "client") ∷ (word (codes "v3") ∷ parts)

pub query_of-IsQuery : (params : List (List ℕ × List ℕ)) → IsQuery (query_of params)
query_of-IsQuery [] = tt
query_of-IsQuery (param ∷ params) = refl

-- A path without a query, as the code writes it.
abbrev pub plain_path : List Part → List ℕ
plain_path [] = []
plain_path (part ∷ []) = b'/' ∷ written part
plain_path (part ∷ (next ∷ parts)) = b'/' ∷ (written part ++ plain_path (next ∷ parts))

plain_path-write_path : (parts : List Part) → plain_path parts ≡ write_path parts []
plain_path-write_path [] = refl
plain_path-write_path (part ∷ []) = ap (λ s. b'/' ∷ s) (sym (append-nil (written part)))
plain_path-write_path (part ∷ (next ∷ parts)) =
    ap (λ s. b'/' ∷ (written part ++ s)) (plain_path-write_path (next ∷ parts))

pub read_path-plain_path :
    (parts : List Part) → Fits parts → read_path (plain_path parts) ≡ map value parts
read_path-plain_path parts h =
    ap read_path (plain_path-write_path parts) ∙ read_path-write_path parts [] h tt
