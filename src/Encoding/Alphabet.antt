-- ===== src/Encoding/Alphabet.antt =====
-- The alphabets of lib/crypto/encoding.cpp and their inverses.
use mtxclient.Shared.{
  ℕ, ◌+◌, ◌%◌, ◌<◌, ◌≡◌, ◌≢◌, refl, Bool, true, not, ◌&&◌, List, [], ◌∷◌, codes, get_or, set,
  replicate, arith, ◌==◌, holds_below, holds_below-at,
}

abbrev pub base64_alphabet : List ℕ
base64_alphabet = codes "ABCDEFGHIJKLMNOPQRSTUVWXYZabcdefghijklmnopqrstuvwxyz0123456789+/"

abbrev pub base64_urlsafe_alphabet : List ℕ
base64_urlsafe_alphabet = codes "ABCDEFGHIJKLMNOPQRSTUVWXYZabcdefghijklmnopqrstuvwxyz0123456789-_"

abbrev pub base58_alphabet : List ℕ
base58_alphabet = codes "123456789ABCDEFGHJKLMNPQRSTUVWXYZabcdefghijkmnopqrstuvwxyz"

-- The second loop of `invert_alphabet`, from position `i`.
invert_from : ℕ → List ℕ → List ℕ → List ℕ
invert_from i inverted [] = inverted
invert_from i inverted (c ∷ alphabet) =
    invert_from (i + 1) (set inverted (c % 256) (i % 256)) alphabet

-- The 256 entries, 0xff where a byte is no letter.
unfoldable pub invert_alphabet : List ℕ → List ℕ
unfolding invert_from
invert_alphabet alphabet = invert_from 0 (replicate 256 0xff) alphabet

unfoldable pub base64_to_int : List ℕ
unfolding invert_alphabet
base64_to_int = invert_alphabet base64_alphabet

unfoldable pub base64_urlsafe_to_int : List ℕ
unfolding invert_alphabet
base64_urlsafe_to_int = invert_alphabet base64_urlsafe_alphabet

unfoldable pub base58_to_int : List ℕ
unfolding invert_alphabet
base58_to_int = invert_alphabet base58_alphabet

-- What the coders need of an alphabet of `n` letters and the table that inverts it.
pub record IsInverse (n : ℕ) (alphabet reverse_alphabet : List ℕ) : Type 0 where
  pub back : (i : ℕ) → i < n → get_or reverse_alphabet (get_or alphabet i 0) 0xff ≡ i
  pub no_pad : (i : ℕ) → i < n → get_or alphabet i 0 ≢ b'='
  pub no_space : (i : ℕ) → i < n → get_or alphabet i 0 ≢ b' '
  pub no_end : (i : ℕ) → i < n → get_or alphabet i 0 ≢ 0xff

is_good : List ℕ → List ℕ → ℕ → Bool
is_good alphabet table i =
    let c = get_or alphabet i 0 in
    get_or table c 0xff == i && not (c == b'=') && not (c == b' ') && not (c == 0xff)

IsInverse-of_check :
    (n : ℕ) (alphabet table : List ℕ)
    → holds_below (is_good alphabet table) n ≡ true
    → IsInverse n alphabet table
unfolding is_good
IsInverse-of_check n alphabet table h = record {
  back = λ i lt. ground (arith, holds_below-at (is_good alphabet table) n i lt h);
  no_pad = λ i lt e. ground (arith, holds_below-at (is_good alphabet table) n i lt h);
  no_space = λ i lt e. ground (arith, holds_below-at (is_good alphabet table) n i lt h);
  no_end = λ i lt e. ground (arith, holds_below-at (is_good alphabet table) n i lt h);
}

base64_check : holds_below (is_good base64_alphabet base64_to_int) 64 ≡ true
unfolding holds_below is_good base64_to_int
base64_check = refl

base64_urlsafe_check : holds_below (is_good base64_urlsafe_alphabet base64_urlsafe_to_int) 64 ≡ true
unfolding holds_below is_good base64_urlsafe_to_int
base64_urlsafe_check = refl

base58_check : holds_below (is_good base58_alphabet base58_to_int) 58 ≡ true
unfolding holds_below is_good base58_to_int
base58_check = refl

pub base64-IsInverse : IsInverse 64 base64_alphabet base64_to_int
base64-IsInverse = IsInverse-of_check 64 base64_alphabet base64_to_int base64_check

pub base64_urlsafe-IsInverse : IsInverse 64 base64_urlsafe_alphabet base64_urlsafe_to_int
base64_urlsafe-IsInverse =
    IsInverse-of_check 64 base64_urlsafe_alphabet base64_urlsafe_to_int base64_urlsafe_check

pub base58-IsInverse : IsInverse 58 base58_alphabet base58_to_int
base58-IsInverse = IsInverse-of_check 58 base58_alphabet base58_to_int base58_check
