-- ===== src/Encoding/Base58.antt =====
-- `encode_base58` and `decode_base58` of lib/crypto/encoding.cpp.
pub mod Digits
pub mod Bounds
pub mod Steps
pub mod Loops
pub mod Letters
pub mod Zeros
pub mod Roundtrip
mod Examples
use mtxclient.Shared.{
  ℕ, zero, suc, ◌+◌, ◌-◌, ◌*◌, ◌/◌, ◌%◌, ◌^◌, Option, none, some, List, [], ◌∷◌, ◌++◌, map, reverse,
  length, get_or, replicate, if◌then◌else◌, ◌==◌,
}
use mtxclient.Encoding.Alphabet.{base58_alphabet, base58_to_int}

-- `carry += x * factor`, in 32 bits.
abbrev pub total : ℕ → ℕ → ℕ → ℕ
total factor carry x = (carry + x * factor) % 2 ^ 32

-- The loop over the digits that are there, the lowest first: the digits that it leaves, and the carry.
unfoldable pub scale_digits : ℕ → ℕ → ℕ → List ℕ → List ℕ
scale_digits factor base carry [] = []
scale_digits factor base carry (x ∷ xs) =
    total factor carry x % base ∷ scale_digits factor base (total factor carry x / base) xs

unfoldable pub scale_carry : ℕ → ℕ → ℕ → List ℕ → ℕ
scale_carry factor base carry [] = carry
scale_carry factor base carry (x ∷ xs) = scale_carry factor base (total factor carry x / base) xs

-- `while (carry > 0)` of the encoder: the digits that it adds where there is room for them. `none` is
-- the assertion that fails.
unfoldable pub grow : ℕ → ℕ → Option (List ℕ)
grow zero carry = if carry == 0 then some [] else none
grow (suc room) carry =
    let more = grow room (carry / 58) in
    if carry == 0 then some [] else elim more [ none ↦ none | some xs ↦ some (carry % 58 ∷ xs) ]

-- One round of the encoder, with `digits.size()`.
unfoldable pub encode_byte : ℕ → List ℕ → ℕ → Option (List ℕ)
encode_byte size digits byte =
    let scaled = scale_digits 256 58 byte digits in
    elim (grow (size - length digits) (scale_carry 256 58 byte digits)) [
      | none ↦ none
      | some more ↦ some (scaled ++ more)
    ]

unfoldable pub encode_bytes : ℕ → List ℕ → List ℕ → Option (List ℕ)
encode_bytes size digits [] = some digits
encode_bytes size digits (byte ∷ input) = elim (encode_byte size digits byte) [
  | none ↦ none
  | some digits' ↦ encode_bytes size digits' input
]

-- The number of times that `x` stands at the front.
unfoldable pub leading : ℕ → List ℕ → ℕ
leading x [] = 0
leading x (y ∷ ys) = let more = leading x ys in if y == x then suc more else 0

unfoldable pub encode_base58 : List ℕ → List ℕ → Option (List ℕ)
encode_base58 alphabet [] = some []
encode_base58 alphabet (byte ∷ input) =
    let bytes = byte ∷ input in
    elim (encode_bytes (length bytes * 138 / 100 + 1) (0 ∷ []) bytes) [
      | none ↦ none
      | some digits ↦
          some (replicate (leading 0 bytes) b'1' ++ map (λ d. get_or alphabet d 0) (reverse digits))
    ]

-- `while (carry > 0)` of the decoder. Four rounds are enough for 32 bits.
unfoldable pub push_bytes : ℕ → ℕ → List ℕ
push_bytes zero carry = []
push_bytes (suc rounds) carry =
    let more = push_bytes rounds (carry / 256) in if carry == 0 then [] else carry % 256 ∷ more

-- A round of the decoder's loop for a digit.
unfoldable pub decode_digit : List ℕ → ℕ → List ℕ
decode_digit result digit =
    scale_digits 58 256 digit result ++ push_bytes 4 (scale_carry 58 256 digit result)

-- The loop over the letters; `none` is the early return.
unfoldable pub decode_letters : List ℕ → List ℕ → List ℕ → Option (List ℕ)
decode_letters reverse_alphabet result [] = some result
decode_letters reverse_alphabet result (b ∷ input) =
    let skipped = decode_letters reverse_alphabet result input in
    let rest =
      decode_letters reverse_alphabet (decode_digit result (get_or reverse_alphabet b 0xff))
        input in
    if b == b' ' then skipped else if b == 0xff then none else rest

-- Nothing is done at the empty text: the loops have no round.
unfoldable pub decode_base58 : List ℕ → List ℕ → List ℕ
decode_base58 reverse_alphabet input = elim (decode_letters reverse_alphabet [] input) [
  | none ↦ []
  | some result ↦ reverse (result ++ replicate (leading b'1' input) 0)
]

unfoldable pub bin2base58 : List ℕ → Option (List ℕ)
bin2base58 bin = encode_base58 base58_alphabet bin

unfoldable pub base582bin : List ℕ → List ℕ
base582bin base58 = decode_base58 base58_to_int base58
