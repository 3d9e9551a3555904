-- ===== src/PushRules/Flatten/Keys.antt =====
-- The keys of a flattened event: escaping keeps single keys apart, and joined paths may meet.
use Prim.Native.Char.{Char, code}
use Prim.Native.String
use Prim.Native.String.{[], ◌∷◌}
use text.Mathlib.TextLemmas.{nil-append, cons-append, append_assoc, append-eq-nil_iff}
use mtxclient.Shared.{
  String, ◌≡◌, ◌∙◌, refl, sym, ap, Bool-cases, inl, inr, true, arith, if◌then◌else◌, ◌==◌, str_eq,
  eq_iff,
}
use mtxclient.PushRules.Flatten.{escape_key, prefix}

-- What a reader of escaped keys does: a backslash before a dot is dropped.
unescape_key : String → String
unescape_key [] = []
unescape_key (c ∷ []) = c ∷ []
unescape_key (c ∷ (d ∷ s)) =
    let rest = unescape_key (d ∷ s) in
    if code c == b'\\' then (if code d == b'.' then rest else c ∷ rest) else c ∷ rest

-- An escaped key does not begin with a dot.
unescape_key-cons :
    (c : Char) (key : String)
    → unescape_key (c ∷ escape_key key) ≡ c ∷ unescape_key (escape_key key)
unfolding unescape_key escape_key
unescape_key-cons c [] = refl
unescape_key-cons c (d ∷ key) = elim (Bool-cases (code d == b'.')) [
  | inl dot ↦ rw dot (ground arith)
  | inr other ↦ rw (other, other) (ground arith)
]

unescape_key-escape_key : (key : String) → unescape_key (escape_key key) ≡ key
unfolding escape_key
unescape_key-escape_key [] = unfold unescape_key in refl
unescape_key-escape_key (c ∷ key) = elim (Bool-cases (code c == b'.')) [
  | inl dot ↦ rw dot (
      unescape_dot c (escape_key key) dot
      ∙ unescape_key-cons c key
      ∙ ap (λ s. c ∷ s) (unescape_key-escape_key key))
  | inr other ↦ rw other (unescape_key-cons c key ∙ ap (λ s. c ∷ s) (unescape_key-escape_key key))
]
  where
    unescape_dot :
        (c : Char) (s : String)
        → (code c == b'.') ≡ true
        → unescape_key ("\\" ∷ (c ∷ s)) ≡ unescape_key (c ∷ s)
    unescape_dot c s dot = unfold unescape_key in rw dot

-- Two keys with one escaped form are the same key.
escape_key-injective : (key other : String) → escape_key key ≡ escape_key other → key ≡ other
escape_key-injective key other e =
    sym (unescape_key-escape_key key) ∙ ap unescape_key e ∙ unescape_key-escape_key other

escape_key-append :
    (s t : String) → escape_key (String.◌++◌ s t) ≡ String.◌++◌ (escape_key s) (escape_key t)
escape_key-append [] t = unfold escape_key in rw (nil-append t, nil-append (escape_key t))
escape_key-append (c ∷ s) t =
    rw (cons-append c s t, escape_key-cons c (String.◌++◌ s t), escape_key-append s t)
      (rejoin c s (escape_key t))
  where
    escape_key-cons :
        (c : Char) (s : String)
        → escape_key (c ∷ s)
          ≡ (if code c == b'.' then "\\" ∷ (c ∷ escape_key s) else c ∷ escape_key s)
    escape_key-cons c s = unfold escape_key in refl

    rejoin :
        (c : Char) (s u : String)
        → (if code c == b'.'
            then "\\" ∷ (c ∷ String.◌++◌ (escape_key s) u)
            else c ∷ String.◌++◌ (escape_key s) u)
          ≡ String.◌++◌ (escape_key (c ∷ s)) u
    rejoin c s u = elim (Bool-cases (code c == b'.')) [
      | inl dot ↦
          unfold escape_key in
          rw dot (
            sym (
              cons-append "\\" (c ∷ escape_key s) u
              ∙ ap (λ r. "\\" ∷ r) (cons-append c (escape_key s) u)))
      | inr other ↦ unfold escape_key in rw other (sym (cons-append c (escape_key s) u))
    ]

prefix-concat :
    (s : String) (c : Char)
    → prefix (String.◌++◌ s (c ∷ [])) ≡ String.◌++◌ (String.◌++◌ s (c ∷ [])) "."
unfolding prefix
prefix-concat s c = elim (Bool-cases (str_eq (String.◌++◌ s (c ∷ [])) "")) [
  | inl empty ↦
      absurd (cons-ne-nil ((append-eq-nil_iff.0 ((eq_iff (String.◌++◌ s (c ∷ [])) "").0 empty)).1))
  | inr more ↦ rw more
]
  where
    cons-ne-nil : c ∷ [] ≡ "" → ⊥
    cons-ne-nil e = cc

-- The field `j` inside a field whose name ends in a backslash has the path of the field whose name
-- is the two names around a dot.
pub paths_meet :
    (k j : String)
    → String.◌++◌ (prefix (escape_key (String.◌++◌ k "\\"))) (escape_key j)
      ≡ escape_key (String.◌++◌ k (String.◌++◌ "." j))
paths_meet k j =
    rw
      (
        escape_key-append k "\\",
        escape_key-append k (String.◌++◌ "." j),
        escape_key-append "." j,
        backslash,
        dot,
        prefix-concat (escape_key k) "\\",
        append_assoc (String.◌++◌ (escape_key k) "\\") "." (escape_key j),
        append_assoc (escape_key k) "\\" (String.◌++◌ "." (escape_key j)),
      )
      (ap (String.◌++◌ (escape_key k)) (sym (append_assoc "\\" "." (escape_key j))))
  where
    backslash : escape_key "\\" ≡ "\\"
    backslash = unfold escape_key in refl

    dot : escape_key "." ≡ "\\."
    dot = unfold escape_key in refl
