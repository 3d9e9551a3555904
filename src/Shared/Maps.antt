-- ===== src/Shared/Maps.antt =====
-- `std::map` and `std::unordered_map` with text keys, as association lists with one entry a key.
use Prim.Native.String.{String}
use text.Mathlib.Text.{◌==◌ as str_eq}
use text.Mathlib.TextEquality.{eq_iff}
use mathlib.Core.Path.{◌≡◌, refl}
use mathlib.Core.Option.{Option, none, some}
use mathlib.Core.List.{List, [], ◌∷◌}
use native.Mathlib.Omega.{arith}
use mtxclient.Shared.Tests.{if◌then◌else◌}

abbrev pub Map {ℓ} : Type ℓ → Type ℓ
Map V = List (String × V)

module _ {ℓ} {V : Type ℓ} where
  -- `find`
  unfoldable pub lookup : String → Map V → Option V
  lookup key [] = none
  lookup key ((held, value) ∷ entries) = if str_eq held key then some value else lookup key entries

  -- `m[key] = value`
  unfoldable pub insert : String → V → Map V → Map V
  insert key value [] = (key, value) ∷ []
  insert key value ((held, old) ∷ entries) =
      if str_eq held key then (held, value) ∷ entries else (held, old) ∷ insert key value entries

  -- What a key finds after a write.
  pub lookup-insert :
      (key asked : String) (value : V) (entries : Map V)
      → lookup asked (insert key value entries)
        ≡ (if str_eq key asked then some value else lookup asked entries)
  unfolding lookup insert
  lookup-insert key asked value [] = refl
  lookup-insert key asked value ((held, old) ∷ entries) = ground (
    arith,
    eq_iff held asked,
    eq_iff held key,
    eq_iff key asked,
    lookup-insert key asked value entries,
  )
