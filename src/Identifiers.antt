-- ===== src/Identifiers.antt =====
-- include/mtx/identifiers.hpp: identifiers of events, rooms and users. A string is a list of bytes.
pub mod Parts
mod Examples
use mtxclient.Shared.{
  ℕ, zero, suc, ◌+◌, ◌-◌, Bool, not, ◌||◌, Option, none, some, List, [], ◌∷◌, take, ◌==◌,
  if◌then◌else◌,
}

-- `ID`
pub record Identifier : Type 0 where
  pub localpart : List ℕ
  pub hostname : List ℕ
  pub id : List ℕ

-- The sigils of `Event`, `Room` and `User`.
abbrev pub event_sigil : ℕ
event_sigil = b'$'

abbrev pub room_sigil : ℕ
room_sigil = b'!'

abbrev pub user_sigil : ℕ
user_sigil = b'@'

unfoldable pub find_first_of : ℕ → List ℕ → Option ℕ
find_first_of c [] = none
find_first_of c (b ∷ s) =
    let later = find_first_of c s in
    if b == c then some 0 else elim later [ none ↦ none | some n ↦ some (suc n) ]

-- `substr(n)`
abbrev pub skip : ℕ → List ℕ → List ℕ
skip zero s = s
skip (suc n) [] = []
skip (suc n) (b ∷ s) = skip n s

-- What follows the search for the colon in an identifier with the right sigil.
unfoldable pub split_at : ℕ → List ℕ → Option ℕ → Option Identifier
split_at sigil id (some parts) =
    some
      (record { localpart = take (parts - 1) (skip 1 id); hostname = skip (parts + 1) id; id = id })
split_at sigil id none =
    if sigil == b'$' || sigil == b'!'
    then some (record { localpart = skip 1 id; hostname = []; id = id })
    else none

-- `parse` at an identifier type with the sigil; `none` where it throws.
unfoldable pub parse : ℕ → List ℕ → Option Identifier
parse sigil [] = some (record { localpart = []; hostname = []; id = [] })
parse sigil (b ∷ s) =
    if not (b == sigil) then none else split_at sigil (b ∷ s) (find_first_of b':' (b ∷ s))
