-- ===== src/Shared/Ladder.antt =====
-- A chain of tests of one text, `if (s == k) return v; else if …`, as a walk over its entries.
use Prim.Native.String.{String}
use text.Mathlib.Text.{◌==◌ as str_eq}
use text.Mathlib.TextEquality.{eq_iff}
use mathlib.Core.Path.{◌≡◌, refl}
use mathlib.Core.Bool.{true}
use mathlib.Core.Logic.{◌⊎◌, inl, inr}
use mathlib.Core.Option.{Option, none, some}
use mathlib.Core.List.{List, [], ◌∷◌}
use native.Mathlib.Omega.{arith}
use mtxclient.Shared.Tests.{if◌then◌else◌, Bool-cases}
use mtxclient.Shared.Lists.{all}

module _ {ℓ} {A : Type ℓ} where
  abbrev pub ladder : List (String × A) → Option A → String → Option A
  ladder [] otherwise s = otherwise
  ladder ((k, v) ∷ rest) otherwise s = if str_eq s k then some v else ladder rest otherwise s

  -- A value comes from the last branch, or from an entry for the text; `name` gives the text back.
  pub ladder_sound :
      (name : A → String) (entries : List (String × A)) (otherwise : Option A) (s : String) (a : A)
      → all (λ e. str_eq (name e.1) e.0) entries ≡ true
      → ladder entries otherwise s ≡ some a
      → (name a ≡ s) ⊎ (otherwise ≡ some a)
  ladder_sound name [] otherwise s a h e = inr e
  ladder_sound name ((k, v) ∷ rest) otherwise s a h e = elim (Bool-cases (str_eq s k)) [
    | inl same ↦
        let found : v ≡ a = cc (rw same at e) in inl (ground (arith, eq_iff s k, eq_iff (name v) k))
    | inr other ↦ ladder_sound name rest otherwise s a (ground arith) (rw other at e)
  ]

  -- With no value at all the last branch has none.
  pub ladder-eq-none :
      (entries : List (String × A)) (otherwise : Option A) (s : String)
      → ladder entries otherwise s ≡ none
      → otherwise ≡ none
  ladder-eq-none [] otherwise s e = e
  ladder-eq-none ((k, v) ∷ rest) otherwise s e = elim (Bool-cases (str_eq s k)) [
    | inl same ↦ cc (rw same at e)
    | inr other ↦ ladder-eq-none rest otherwise s (rw other at e)
  ]

  -- A chain whose last branch has a value too.
  abbrev pub ladder_or : List (String × A) → A → String → A
  ladder_or [] otherwise s = otherwise
  ladder_or ((k, v) ∷ rest) otherwise s = if str_eq s k then v else ladder_or rest otherwise s

  pub ladder-some :
      (entries : List (String × A)) (otherwise : A) (s : String)
      → ladder entries (some otherwise) s ≡ some (ladder_or entries otherwise s)
  ladder-some [] otherwise s = refl
  ladder-some ((k, v) ∷ rest) otherwise s = elim (Bool-cases (str_eq s k)) [
    | inl same ↦ rw same
    | inr other ↦ rw other (ladder-some rest otherwise s)
  ]
