-- ===== src/Encoding/Base64.antt =====
-- lib/crypto/encoding.cpp: `encode_base64` and `decode_base64`, and the functions over them. A
-- `std::string` is the list of its bytes. `x >> k` is `x / 2 ^ k`, and `x & 0b11'1111` is `x % 64`.
pub mod Groups
pub mod Roundtrip
mod Examples
use mtxclient.Shared.{
  ℕ, zero, suc, ◌+◌, ◌-◌, ◌*◌, ◌/◌, ◌%◌, ◌^◌, Bool, true, false, ◌&&◌, ◌||◌, List, [], ◌∷◌, ◌++◌,
  reverse, get_or, set, take, length, ltb, ◌==◌, if◌then◌else◌,
}
use mtxclient.Encoding.Alphabet.{
  base64_alphabet, base64_urlsafe_alphabet, base64_to_int, base64_urlsafe_to_int,
}

-- `while ((input.size() + missing) % 3) missing++;` with the rounds that are left.
pub missing_from : ℕ → ℕ → ℕ → ℕ
missing_from zero size missing = missing
missing_from (suc rounds) size missing =
    let more = missing_from rounds size (missing + 1) in
    if (size + missing) % 3 == 0 then missing else more

-- The loop ends within two rounds.
pub missing_of : ℕ → ℕ
unfolding missing_from
missing_of size = missing_from 2 size 0

-- The four letters of a group of three bytes.
pub letters : List ℕ → ℕ → List ℕ
letters alphabet bytes =
    get_or alphabet (bytes / 2 ^ 18 % 64) 0
    ∷ get_or alphabet (bytes / 2 ^ 12 % 64) 0
    ∷ get_or alphabet (bytes / 2 ^ 6 % 64) 0
    ∷ get_or alphabet (bytes % 64) 0
    ∷ []

-- The `for` loop, three bytes a round.
pub encode_groups : List ℕ → List ℕ → List ℕ
encode_groups alphabet [] = []
encode_groups alphabet (a ∷ []) = letters alphabet (a * 2 ^ 16)
encode_groups alphabet (a ∷ b ∷ []) = letters alphabet (a * 2 ^ 16 + b * 2 ^ 8)
encode_groups alphabet (a ∷ b ∷ c ∷ input) =
    letters alphabet (a * 2 ^ 16 + b * 2 ^ 8 + c) ++ encode_groups alphabet input

-- `while (missing) { encoded[encoded.size() - missing] = '='; missing--; }`
pub pad_with : ℕ → List ℕ → List ℕ
pad_with zero encoded = encoded
pad_with (suc missing) encoded = pad_with missing (set encoded (length encoded - suc missing) b'=')

unfoldable pub encode_base64 : Bool → List ℕ → List ℕ → List ℕ
encode_base64 true alphabet input =
    pad_with (missing_of (length input)) (encode_groups alphabet input)
encode_base64 false alphabet input =
    let encoded = encode_groups alphabet input in
    take (length encoded - missing_of (length input)) encoded

-- The state of the decoding loop: the bytes so far, the last one first, and the two counters.
pub record Decoder : Type 0 where
  pub decoded : List ℕ
  pub bit_index : ℕ
  pub d : ℕ

-- The body of the `switch`. `back()` of an empty string is never asked for.
pub store : ℕ → ℕ → List ℕ → List ℕ
store zero d decoded = (d * 2 ^ 2 % 256) ∷ decoded
store (suc zero) d (x ∷ decoded) = (d * 2 ^ 4 % 256) ∷ ((x + d / 2 ^ 4) % 256) ∷ decoded
store (suc (suc zero)) d (x ∷ decoded) = (d * 2 ^ 6 % 256) ∷ ((x + d / 2 ^ 2) % 256) ∷ decoded
store (suc (suc (suc zero))) d (x ∷ decoded) = ((x + d) % 256) ∷ decoded
store _ d decoded = decoded

-- `bit_index++`, and the reset in the last case.
pub next_index : ℕ → ℕ
next_index (suc (suc (suc k))) = 0
next_index k = k + 1

-- The `for` loop with its two exits. A `d` above 64 is read before the loop ends.
pub decode_from : List ℕ → List ℕ → Decoder → Decoder
decode_from reverse_alphabet [] s = s
decode_from reverse_alphabet (b ∷ input) s =
    let d = get_or reverse_alphabet b 0xff in
    let rest = decode_from reverse_alphabet input (record {
      decoded = store s.bit_index d s.decoded;
      bit_index = next_index s.bit_index;
      d = d;
    }) in
    if b == b'=' then s else if ltb 64 d then record s { d = d } else rest

-- `pop_back`
pub drop_back : List ℕ → List ℕ
drop_back [] = []
drop_back (x ∷ decoded) = decoded

pub finish : Decoder → List ℕ
unfolding drop_back
finish s = reverse (
    if (s.bit_index == 2 && s.d * 2 ^ 4 % 256 == 0) || (s.bit_index == 3 && s.d * 2 ^ 6 % 256 == 0)
    then drop_back s.decoded
    else s.decoded)

abbrev pub start : Decoder
start = record { decoded = []; bit_index = 0; d = 0 }

unfoldable pub decode_base64 : List ℕ → List ℕ → List ℕ
decode_base64 reverse_alphabet input = finish (decode_from reverse_alphabet input start)

pub base642bin : List ℕ → List ℕ
base642bin b64 = decode_base64 base64_to_int b64

pub bin2base64 : List ℕ → List ℕ
bin2base64 bin = encode_base64 true base64_alphabet bin

pub base642bin_unpadded : List ℕ → List ℕ
base642bin_unpadded b64 = decode_base64 base64_to_int b64

pub bin2base64_unpadded : List ℕ → List ℕ
bin2base64_unpadded bin = encode_base64 false base64_alphabet bin

pub base642bin_urlsafe_unpadded : List ℕ → List ℕ
base642bin_urlsafe_unpadded b64 = decode_base64 base64_urlsafe_to_int b64

pub bin2base64_urlsafe_unpadded : List ℕ → List ℕ
bin2base64_urlsafe_unpadded bin = encode_base64 false base64_urlsafe_alphabet bin
