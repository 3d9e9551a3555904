-- ===== src/Http/Params/Queries.antt =====
-- A query is read back.
use mathlib.Core.List.{append-nil, append_assoc}
use mtxclient.Shared.{
  ℕ, ◌≡◌, ◌∙◌, refl, sym, ap, Bool, Bool-cases, inl, inr, true, false, not, List, [], ◌∷◌, ◌++◌,
  map, all, arith, ◌==◌, ==_iff, if◌then◌else◌, AreBytes, All,
}
use mtxclient.Utils.{is_kept, url_encode, more_params, query_params, push_front}
use mtxclient.Http.Paths.{is_safe, safe_of_kept}
use mtxclient.Utils.Urls.{percent_decode, percent_decode-url_encode, url_encode-all}

-- What is before the first `b`, and what is behind it.
unfoldable cut : ℕ → List ℕ → List ℕ × List ℕ
cut b [] = ([], [])
cut b (c ∷ s) = let (before, behind) = cut b s in if c == b then ([], s) else (c ∷ before, behind)

-- The pieces between the bytes that are `b`.
unfoldable split_on : ℕ → List ℕ → List (List ℕ)
split_on b [] = [] ∷ []
split_on b (c ∷ s) = let parts = split_on b s in if c == b then [] ∷ parts else push_front c parts

abbrev read_param : List ℕ → List ℕ × List ℕ
read_param piece = let (key, value) = cut b'=' piece in (key, percent_decode value)

-- What a server reads: the parameters between the ampersands, with their values decoded.
pub read_query : List ℕ → List (List ℕ × List ℕ)
read_query [] = []
read_query (c ∷ s) = map read_param (split_on b'&' (c ∷ s))

abbrev none_is : ℕ → List ℕ → Bool
none_is b s = all (λ c. not (c == b)) s

same_byte : (b : ℕ) → (b == b) ≡ true
same_byte b = (==_iff b b).1 refl

cut-append : (b : ℕ) (s t : List ℕ) → none_is b s ≡ true → cut b (s ++ b ∷ t) ≡ (s, t)
unfolding cut
cut-append b [] t h = rw (same_byte b) refl
cut-append b (c ∷ s) t h = elim (Bool-cases (c == b)) [
  | inl same ↦ cc (rw same at h)
  | inr other ↦ rw (other, cut-append b s t (rw other at h)) refl
]

split_on-plain : (b : ℕ) (s : List ℕ) → none_is b s ≡ true → split_on b s ≡ s ∷ []
unfolding split_on
split_on-plain b [] h = refl
split_on-plain b (c ∷ s) h = elim (Bool-cases (c == b)) [
  | inl same ↦ cc (rw same at h)
  | inr other ↦ rw (other, split_on-plain b s (rw other at h)) refl
]

split_on-append :
    (b : ℕ) (s t : List ℕ) → none_is b s ≡ true → split_on b (s ++ b ∷ t) ≡ s ∷ split_on b t
unfolding split_on
split_on-append b [] t h = rw (same_byte b) refl
split_on-append b (c ∷ s) t h = elim (Bool-cases (c == b)) [
  | inl same ↦ cc (rw same at h)
  | inr other ↦ rw (other, split_on-append b s t (rw other at h)) refl
]

-- A parameter whose name needs no encoding and whose value is a string of bytes, and how it is written.
abbrev pub IsParam : List ℕ × List ℕ → Type 0
IsParam (key, value) = (all is_kept key ≡ true) × AreBytes value

abbrev written : List ℕ × List ℕ → List ℕ
written (key, value) = key ++ b'=' ∷ url_encode value

safe_is_plain : (c : ℕ) → is_safe c ≡ true → ((c == b'&') ≡ false) × ((c == b'=') ≡ false)
unfolding is_kept
safe_is_plain c h = ground arith

safe-none_is :
    (b : ℕ) (s : List ℕ)
    → ((c : ℕ) → is_safe c ≡ true → (c == b) ≡ false)
    → all is_safe s ≡ true
    → none_is b s ≡ true
safe-none_is b [] other h = refl
safe-none_is b (c ∷ s) other h = elim (Bool-cases (is_safe c)) [
  | inl safe ↦ rw (other c safe) (safe-none_is b s other (rw safe at h))
  | inr unsafe ↦ cc (rw unsafe at h)
]

none_is-append :
    (b : ℕ) (s t : List ℕ) → none_is b s ≡ true → none_is b t ≡ true → none_is b (s ++ t) ≡ true
none_is-append b [] t h k = k
none_is-append b (c ∷ s) t h k = elim (Bool-cases (c == b)) [
  | inl same ↦ cc (rw same at h)
  | inr other ↦ rw other (none_is-append b s t (rw other at h) k)
]

written-none_is : (param : List ℕ × List ℕ) → IsParam param → none_is b'&' (written param) ≡ true
written-none_is (key, value) (h, k) =
    none_is-append b'&' key (b'=' ∷ url_encode value)
      (safe-none_is b'&' key (λ c safe. (safe_is_plain c safe).0) (safe_of_kept key h))
      (safe-none_is b'&' (url_encode value) (λ c safe. (safe_is_plain c safe).0)
        (url_encode-all value k))

read_param-written : (param : List ℕ × List ℕ) → IsParam param → read_param (written param) ≡ param
read_param-written (key, value) (h, k) =
    rw
      (cut-append b'=' key (url_encode value)
        (safe-none_is b'=' key (λ c safe. (safe_is_plain c safe).1) (safe_of_kept key h)))
      (ap (λ v. (key, v)) (percent_decode-url_encode value k))

split_on-more :
    (w : List ℕ) (params : List (List ℕ × List ℕ))
    → none_is b'&' w ≡ true
    → All IsParam params
    → split_on b'&' (w ++ more_params params) ≡ w ∷ map written params
unfolding more_params
split_on-more w [] h k = rw (append-nil w) (split_on-plain b'&' w h)
split_on-more w ((key, value) ∷ params) h (p, k) =
    split_on-append b'&' w _ h
    ∙ ap (λ s. w ∷ split_on b'&' s)
        (sym (append_assoc key (b'=' ∷ url_encode value) (more_params params)))
    ∙ ap (λ parts. w ∷ parts)
        (split_on-more (written (key, value)) params (written-none_is (key, value) p) k)

read_params :
    (params : List (List ℕ × List ℕ))
    → All IsParam params
    → map read_param (map written params) ≡ params
read_params [] h = refl
read_params (param ∷ params) (p, h) = cc (read_param-written param p, read_params params h)

read_query-cons :
    (s : List ℕ) (c : ℕ) (t : List ℕ) → s ≡ c ∷ t → read_query s ≡ map read_param (split_on b'&' s)
unfolding read_query
read_query-cons s c t e = rw e refl

query_params-cons :
    (key value : List ℕ) (params : List (List ℕ × List ℕ))
    → (c : ℕ) × (t : List ℕ) × (query_params ((key, value) ∷ params) ≡ c ∷ t)
unfolding query_params
query_params-cons [] value params = (b'=', _, refl)
query_params-cons (c ∷ key) value params = (c, _, refl)

read_query-empty : read_query (query_params []) ≡ []
unfolding read_query query_params
read_query-empty = refl

-- A server that takes a query apart at the ampersands and equals signs and decodes the values reads the parameters,
-- whatever bytes the values are, where the names have letters, digits, `-`, `_`, `.` and `~` alone.
pub read_query-query_params :
    (params : List (List ℕ × List ℕ))
    → All IsParam params
    → read_query (query_params params) ≡ params
read_query-query_params [] h = read_query-empty
read_query-query_params ((key, value) ∷ params) (p, h) =
    let (c, t, e) = query_params-cons key value params in
    read_query-cons _ c t e
    ∙ ap (map read_param)
        (pieces ∙ split_on-more (written (key, value)) params (written-none_is (key, value) p) h)
    ∙ read_params ((key, value) ∷ params) (p, h)
  where
    pieces :
        split_on b'&' (query_params ((key, value) ∷ params))
        ≡ split_on b'&' (written (key, value) ++ more_params params)
    pieces =
        unfold query_params in
        ap (split_on b'&') (sym (append_assoc key (b'=' ∷ url_encode value) (more_params params)))
