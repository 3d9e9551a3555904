-- ===== src/Identifiers/Parts.antt =====
-- An identifier is its sigil, its local part and its host name.
use mathlib.Core.Path.{subst}
use mtxclient.Shared.{
  ℕ, zero, suc, ◌+◌, ◌-◌, ◌≡◌, ◌≢◌, ◌⊎◌, ◌∙◌, refl, sym, ap, Bool, Bool-cases, Option-cases, inl,
  inr, true, false, not, ◌||◌, Option, none, some, List, [], ◌∷◌, ◌++◌, all, take, take-append,
  length, arith, ◌==◌, ==_iff,
}
use mtxclient.Identifiers.{Identifier, find_first_of, skip, split_at, parse, user_sigil}

abbrev pub no_colon : List ℕ → Bool
no_colon s = all (λ c. not (c == b':')) s

pub find_first_of-append :
    (s t : List ℕ) → no_colon s ≡ true → find_first_of b':' (s ++ b':' ∷ t) ≡ some (length s)
unfolding find_first_of
find_first_of-append [] t h = refl
find_first_of-append (c ∷ s) t h = elim (Bool-cases (c == b':')) [
  | inl colon ↦ cc (rw colon at h)
  | inr plain ↦ rw (plain, find_first_of-append s t (rw plain at h)) refl
]

pub skip-append : (s t : List ℕ) (c : ℕ) → skip (length s + 1) (s ++ c ∷ t) ≡ t
skip-append s t c = ap (λ n. skip n (s ++ c ∷ t)) (plus_one (length s)) ∙ skip_all s t c
  where
    plus_one : (n : ℕ) → n + 1 ≡ suc n
    plus_one n = omega arith

    skip_all : (s t : List ℕ) (c : ℕ) → skip (suc (length s)) (s ++ c ∷ t) ≡ t
    skip_all [] t c = refl
    skip_all (b ∷ s) t c = skip_all s t c

-- What `find_first_of` finds splits the text.
find_first_of-some :
    (s : List ℕ) (n : ℕ) → find_first_of b':' s ≡ some n → s ≡ take n s ++ b':' ∷ skip (suc n) s
unfolding find_first_of
find_first_of-some [] n e = cc
find_first_of-some (c ∷ s) zero e = elim (Bool-cases (c == b':')) [
  | inl colon ↦ ap (λ b. b ∷ s) ((==_iff c b':').0 colon)
  | inr plain ↦ elim (Option-cases (find_first_of b':' s)) [
    | inl missing ↦ cc (rw (plain, missing) at e)
    | inr (m, found) ↦ cc (rw (plain, found) at e)
  ]
]
find_first_of-some (c ∷ s) (suc n) e = elim (Bool-cases (c == b':')) [
  | inl colon ↦ cc (rw colon at e)
  | inr plain ↦ elim (Option-cases (find_first_of b':' s)) [
    | inl missing ↦ cc (rw (plain, missing) at e)
    | inr (m, found) ↦
        ap (λ t. c ∷ t) (find_first_of-some s n (found ∙ cc (rw (plain, found) at e)))
  ]
]

-- An identifier that is put together from a sigil other than the colon, a local part without a colon
-- and a host name is taken apart into these.
pub parse-parts :
    (sigil : ℕ) (localpart hostname : List ℕ)
    → (sigil == b':') ≡ false
    → no_colon localpart ≡ true
    → parse sigil (sigil ∷ (localpart ++ b':' ∷ hostname))
      ≡ some (record {
        localpart = localpart;
        hostname = hostname;
        id = sigil ∷ (localpart ++ b':' ∷ hostname);
      })
unfolding parse split_at
parse-parts sigil localpart hostname s h =
    let one_less : suc (length localpart) - 1 ≡ length localpart = omega arith in
    rw
      (
        (==_iff sigil sigil).1 refl,
        find_first_of-append (sigil ∷ localpart) hostname (rw s h),
        one_less,
        take-append localpart (b':' ∷ hostname),
        skip-append (sigil ∷ localpart) hostname b':',
      )
      refl

-- An identifier is the parts of the text that it was read from.
abbrev pub IsMadeOf : ℕ → List ℕ → Identifier → Type 0
IsMadeOf sigil text i =
    (i.id ≡ text)
    × ((text ≡ sigil ∷ (i.localpart ++ b':' ∷ i.hostname))
        ⊎ ((text ≡ sigil ∷ i.localpart) × (i.hostname ≡ []) × ((sigil == user_sigil) ≡ false)))

-- The identifiers without a colon.
without_colon :
    (sigil : ℕ) → (sigil == b'$' || sigil == b'!') ≡ true → (sigil == user_sigil) ≡ false
without_colon sigil h = ground arith

some-path : (i j : Identifier) → some i ≡ some j → i ≡ j
some-path i j e = cc

split_at-IsMadeOf :
    (sigil : ℕ) (s : List ℕ) (found : Option ℕ) (i : Identifier)
    → find_first_of b':' (sigil ∷ s) ≡ found
    → (sigil == b':') ≡ false
    → split_at sigil (sigil ∷ s) found ≡ some i
    → IsMadeOf sigil (sigil ∷ s) i
unfolding split_at
split_at-IsMadeOf sigil s none i f plain e = elim (Bool-cases (sigil == b'$' || sigil == b'!')) [
  | inl allowed ↦
      subst (IsMadeOf sigil (sigil ∷ s)) (some-path _ i (rw allowed at e))
        (refl, inr (refl, refl, without_colon sigil allowed))
  | inr user ↦ cc (rw user at e)
]
split_at-IsMadeOf sigil s (some zero) i f plain e = cc (
    sym plain
    ∙ (==_iff sigil b':').1 (head_path sigil b':' s s (find_first_of-some (sigil ∷ s) zero f)))
  where
    head_path : (b c : ℕ) (s t : List ℕ) → b ∷ s ≡ c ∷ t → b ≡ c
    head_path b c s t e = cc
split_at-IsMadeOf sigil s (some (suc m)) i f plain e =
    subst (IsMadeOf sigil (sigil ∷ s)) (some-path _ i e) (
      refl,
      inl (
          find_first_of-some (sigil ∷ s) (suc m) f
          ∙ ap (λ n. sigil ∷ (take n s ++ b':' ∷ skip (suc m) s)) (one_less m)
          ∙ ap (λ n. sigil ∷ (take (suc m - 1) s ++ b':' ∷ skip n (sigil ∷ s))) (one_more m)),
    )
  where
    one_less : (m : ℕ) → m ≡ suc m - 1
    one_less m = omega arith

    one_more : (m : ℕ) → suc (suc m) ≡ suc m + 1
    one_more m = omega arith

-- A text that is not empty and is read as an identifier, with a sigil other than the colon, is kept
-- whole and begins with the sigil; behind it stand the local part and the host name around a colon,
-- or, for a sigil other than that of users, the local part with no host name.
pub parse-IsMadeOf :
    (sigil : ℕ) (text : List ℕ) (i : Identifier)
    → (sigil == b':') ≡ false
    → text ≢ []
    → parse sigil text ≡ some i
    → IsMadeOf sigil text i
unfolding parse
parse-IsMadeOf sigil [] i plain filled e = absurd (filled refl)
parse-IsMadeOf sigil (b ∷ s) i plain filled e = elim (Bool-cases (b == sigil)) [
  | inl same ↦
      let is_sigil : b ≡ sigil = (==_iff b sigil).0 same in
      subst (λ t. IsMadeOf sigil t i) (ap (λ c. c ∷ s) (sym is_sigil))
        (split_at-IsMadeOf sigil s (find_first_of b':' (sigil ∷ s)) i refl plain (
          ap (λ c. split_at sigil (c ∷ s) (find_first_of b':' (c ∷ s))) (sym is_sigil)
          ∙ rw same at e))
  | inr other ↦ cc (rw other at e)
]
