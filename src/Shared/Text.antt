-- ===== src/Shared/Text.antt =====
-- The bytes of a `std::string`, for the code that reads them one by one.
use Prim.Native.Nat.{ℕ, ◌+◌, ◌<◌}
use Prim.Native.Char.{code}
use Prim.Native.String.{String}
use mathlib.Core.Path.{◌≡◌, refl}
use mathlib.Core.Logic.{◌↔◌}
use mathlib.Core.Bool.{Bool, true, false, ◌&&◌}
use mathlib.Core.List.{List, [], ◌∷◌, ◌++◌}
use native.Mathlib.Omega.{arith}
use mtxclient.Shared.Tests.{◌==◌, ltb, if◌then◌else◌}
use mtxclient.Shared.Lists.{All}

-- The bytes of an ASCII literal.
abbrev pub codes : String → List ℕ
codes String.[] = []
codes (String.◌∷◌ letter text) = code letter ∷ codes text

-- Every element of the list is a byte.
abbrev pub AreBytes : List ℕ → Type 0
AreBytes = All (λ b. b < 256)

-- `==` of two byte strings
abbrev pub bytes_eq : List ℕ → List ℕ → Bool
bytes_eq [] [] = true
bytes_eq (a ∷ s) (b ∷ t) = a == b && bytes_eq s t
bytes_eq _ _ = false

pub bytes_eq_iff : (s t : List ℕ) → (bytes_eq s t ≡ true) ↔ (s ≡ t)
bytes_eq_iff [] [] = (λ e. refl, λ e. refl)
bytes_eq_iff [] (b ∷ t) = (λ e. cc, λ e. cc)
bytes_eq_iff (a ∷ s) [] = (λ e. cc, λ e. cc)
bytes_eq_iff (a ∷ s) (b ∷ t) = ground (arith, bytes_eq_iff s t)

-- `+` of strings, read from the right.
infixr 65 ◌+++◌
abbrev pub ◌+++◌ : List ℕ → List ℕ → List ℕ
s +++ t = s ++ t

-- The number of bytes that a letter takes in UTF-8.
abbrev pub letter_length : ℕ → ℕ
letter_length n = if ltb n 128 then 1 else if ltb n 2048 then 2 else if ltb n 65536 then 3 else 4

-- `length()` of a `std::string` that holds a text.
unfoldable pub utf8_length : String → ℕ
utf8_length String.[] = 0
utf8_length (String.◌∷◌ letter text) = letter_length (code letter) + utf8_length text
