-- ===== src/Http/Params.antt =====
-- The parameters of a query, kept in a `std::map`, which orders them by their names.
pub mod Queries
use mtxclient.Shared.{
  ℕ, Bool, true, false, ◌&&◌, ◌||◌, List, [], ◌∷◌, ltb, ◌==◌, if◌then◌else◌, bytes_eq,
}

-- `<` of two byte strings
abbrev pub bytes_less : List ℕ → List ℕ → Bool
bytes_less s [] = false
bytes_less [] (b ∷ t) = true
bytes_less (a ∷ s) (b ∷ t) = ltb a b || (a == b && bytes_less s t)

-- `emplace`, which keeps a value that is there.
unfoldable pub emplace : List ℕ → List ℕ → List (List ℕ × List ℕ) → List (List ℕ × List ℕ)
emplace key value [] = (key, value) ∷ []
emplace key value ((k, v) ∷ params) =
    let rest = emplace key value params in
    if bytes_eq key k
    then (k, v) ∷ params
    else if bytes_less key k
    then (key, value) ∷ ((k, v) ∷ params)
    else (k, v) ∷ rest

-- `emplace` under a test
abbrev pub emplace_if : Bool → List ℕ → List ℕ → List (List ℕ × List ℕ) → List (List ℕ × List ℕ)
emplace_if wanted key value params = if wanted then emplace key value params else params
