-- ===== src/Http/Media/Filenames.antt =====
-- The file name that a download takes from its headers.
use mathlib.Core.List.{append_assoc}
use mtxclient.Shared.{
  ℕ, suc, ◌≡◌, ◌∙◌, refl, sym, ap, Bool, Bool-cases, inl, inr, true, not, none, some, List, [], ◌∷◌,
  ◌++◌, all, take-append, length, ◌==◌, codes,
}
use mtxclient.Identifiers.{find_first_of}
use mtxclient.Http.Media.{
  find_text, quoted, filename_at, filename_in, after_equals, original_filename,
}

abbrev pub no_quote : List ℕ → Bool
no_quote s = all (λ c. not (c == b'"')) s

find_quote :
    (s t : List ℕ) → no_quote s ≡ true → find_first_of b'"' (s ++ b'"' ∷ t) ≡ some (length s)
unfolding find_first_of
find_quote [] t h = refl
find_quote (c ∷ s) t h = elim (Bool-cases (c == b'"')) [
  | inl quote ↦ cc (rw quote at h)
  | inr plain ↦ rw (plain, find_quote s t (rw plain at h)) refl
]

no_quotes : (s : List ℕ) → no_quote s ≡ true → find_first_of b'"' s ≡ none
unfolding find_first_of
no_quotes [] h = refl
no_quotes (c ∷ s) h = elim (Bool-cases (c == b'"')) [
  | inl quote ↦ cc (rw quote at h)
  | inr plain ↦ rw (plain, no_quotes s (rw plain at h)) refl
]

-- The name in the header of an attachment.
abbrev pub attachment : List ℕ → List ℕ
attachment s = codes "attachment; filename=" ++ s

length-last : (name : List ℕ) (last : ℕ) → length (name ++ last ∷ []) ≡ suc (length name)
length-last [] last = refl
length-last (c ∷ name) last = ap suc (length-last name last)

quoted-name :
    (name rest : List ℕ) (last : ℕ)
    → no_quote (name ++ last ∷ []) ≡ true
    → quoted (name ++ last ∷ (b'"' ∷ rest)) (find_first_of b'"' (name ++ last ∷ (b'"' ∷ rest)))
      ≡ name
unfolding quoted
quoted-name name rest last h =
    ap (quoted (name ++ last ∷ (b'"' ∷ rest))) (
      ap (find_first_of b'"') (sym (append_assoc name (last ∷ []) (b'"' ∷ rest)))
      ∙ find_quote (name ++ last ∷ []) rest h
      ∙ ap some (length-last name last))
    ∙ take-append name (last ∷ (b'"' ∷ rest))

unquoted-name :
    (s : List ℕ) → no_quote s ≡ true → find_first_of b'"' (codes "filename=" ++ s) ≡ none
unfolding find_first_of
unquoted-name s h = rw (no_quotes s h) refl

original_filename-attachment :
    (s : List ℕ)
    → original_filename (attachment s)
      ≡ filename_at
          (attachment s)
          (codes "filename=" ++ s)
          (find_first_of b'"' (codes "filename=" ++ s))
unfolding original_filename find_text filename_in
original_filename-attachment s = refl

after_filename : (s : List ℕ) → filename_at (attachment s) (codes "filename=" ++ s) none ≡ s
unfolding filename_at after_equals find_first_of
after_filename s = refl

at_quote :
    (u : List ℕ)
    → filename_at
        (attachment (b'"' ∷ u))
        (codes "filename=" ++ b'"' ∷ u)
        (find_first_of b'"' (codes "filename=" ++ b'"' ∷ u))
      ≡ quoted u (find_first_of b'"' u)
unfolding filename_at find_first_of
at_quote u = refl

-- A name in quotes that has one byte at least and no quotes is read without its last byte, and a name that
-- stands without quotes is read as it is.
pub original_filename-quoted :
    (name rest : List ℕ) (last : ℕ)
    → no_quote (name ++ last ∷ []) ≡ true
    → (original_filename (attachment (b'"' ∷ (name ++ last ∷ (b'"' ∷ rest)))) ≡ name)
      × (original_filename (attachment (name ++ last ∷ [])) ≡ name ++ last ∷ [])
original_filename-quoted name rest last h = (
  original_filename-attachment _ ∙ at_quote _ ∙ quoted-name name rest last h,
  original_filename-attachment _
      ∙ ap (filename_at (attachment (name ++ last ∷ [])) _) (unquoted-name (name ++ last ∷ []) h)
      ∙ after_filename (name ++ last ∷ []),
)
