-- ===== src/Encoding/Base64/Roundtrip.antt =====
-- The coders of lib/crypto/encoding.cpp as inverses of one another, and the lengths of their results.
use mathlib.Core.List.{reverse_aux}
use mtxclient.Shared.{
  ℕ, ◌+◌, ◌*◌, ◌/◌, ◌%◌, ◌^◌, ◌<◌, ◌≤◌, ◌≡◌, refl, Bool, true, false, List, [], ◌∷◌, ◌++◌, arith,
  get_or, length, AreBytes,
}
use mtxclient.Encoding.Alphabet.{
  IsInverse, base64_alphabet, base64-IsInverse, base64_urlsafe-IsInverse,
}
use mtxclient.Encoding.Base64.{
  missing_of, letters, encode_groups, pad_with, encode_base64, Decoder, decode_from, finish,
  decode_base64, base642bin, bin2base64, base642bin_unpadded, bin2base64_unpadded,
  base642bin_urlsafe_unpadded, bin2base64_urlsafe_unpadded,
}
use mtxclient.Encoding.Base64.Groups.{
  missing_of_group, pad_with-group, take-group, decode_group, decode_two, decode_third,
}

missing_of-le :
    (alphabet input : List ℕ) → missing_of (length input) ≤ length (encode_groups alphabet input)
unfolding missing_of encode_groups letters
missing_of-le alphabet [] = omega arith
missing_of-le alphabet (a ∷ []) = omega arith
missing_of-le alphabet (a ∷ b ∷ []) = omega arith
missing_of-le alphabet (a ∷ b ∷ c ∷ input) =
    omega (arith, missing_of_group (length input), missing_of-le alphabet input)

-- Both variants go on group by group.
encode_base64-cons :
    (pad : Bool) (alphabet : List ℕ) (a b c : ℕ) (input : List ℕ)
    → encode_base64 pad alphabet (a ∷ b ∷ c ∷ input)
      ≡ letters alphabet (a * 2 ^ 16 + b * 2 ^ 8 + c) ++ encode_base64 pad alphabet input
unfolding encode_base64 encode_groups letters
encode_base64-cons true alphabet a b c input = rw (missing_of_group (length input)) (
    pad_with-group (missing_of (length input)) _ _ _ _ (encode_groups alphabet input)
      (missing_of-le alphabet input))
encode_base64-cons false alphabet a b c input = rw (missing_of_group (length input)) (
    take-group (missing_of (length input)) _ _ _ _ (encode_groups alphabet input)
      (missing_of-le alphabet input))

module _ {alphabet table : List ℕ} (inverse : IsInverse 64 alphabet table) where
  -- The last group, of one byte or of two, before a tail that ends the loop.
  module _ (a d : ℕ) (tail out : List ℕ) (ends : (s : Decoder) → decode_from table tail s ≡ s)
      (p : a < 256) where
    finish_one :
        finish (
          decode_from table
            (get_or alphabet (a * 65536 / 262144 % 64) 0
              ∷ get_or alphabet (a * 65536 / 4096 % 64) 0
              ∷ tail)
            (record { decoded = out; bit_index = 0; d = d }))
        ≡ reverse_aux out (a ∷ [])
    unfolding finish
    finish_one =
        let j : ℕ = a * 65536 / 4096 % 64 in
        let zeros : j * 16 % 256 ≡ 0 = omega arith in
        let byte : (a * 65536 / 262144 % 64 * 4 % 256 + j / 16) % 256 ≡ a = omega arith in
        rw (
          decode_two inverse (a * 65536 / 262144 % 64) j tail out d (omega arith) (omega arith),
          ends,
          zeros,
          byte,
        )

    module _ (b : ℕ) (q : b < 256) where
      finish_two :
          finish (
            decode_from table
              (get_or alphabet ((a * 65536 + b * 256) / 262144 % 64) 0
                ∷ get_or alphabet ((a * 65536 + b * 256) / 4096 % 64) 0
                ∷ get_or alphabet ((a * 65536 + b * 256) / 64 % 64) 0
                ∷ tail)
              (record { decoded = out; bit_index = 0; d = d }))
          ≡ reverse_aux out (a ∷ b ∷ [])
      unfolding finish
      finish_two =
          let w : ℕ = a * 65536 + b * 256 in
          let i : ℕ = w / 262144 % 64 in
          let j : ℕ = w / 4096 % 64 in
          let k : ℕ = w / 64 % 64 in
          let zeros : k * 64 % 256 ≡ 0 = omega arith in
          let first : (i * 4 % 256 + j / 16) % 256 ≡ a = omega arith in
          let second : (j * 16 % 256 + k / 4) % 256 ≡ b = omega arith in
          rw (
            decode_two inverse i j _ out d (omega arith) (omega arith),
            decode_third inverse k tail (((i * 4 % 256 + j / 16) % 256) ∷ out) (j * 16 % 256) j
                (omega arith),
            ends,
            zeros,
            first,
            second,
          )

  ends_nil : (s : Decoder) → decode_from table [] s ≡ s
  unfolding decode_from
  ends_nil s = refl

  ends_pad : (tail : List ℕ) (s : Decoder) → decode_from table (b'=' ∷ tail) s ≡ s
  unfolding decode_from
  ends_pad tail s = refl

  -- From the start of a group the decoder gives the rest of the input back.
  decode_from-encode :
      (pad : Bool) (input out : List ℕ) (d : ℕ)
      → AreBytes input
      → finish (
          decode_from table
            (encode_base64 pad alphabet input)
            (record { decoded = out; bit_index = 0; d = d }))
        ≡ reverse_aux out input
  decode_from-encode true [] out d h =
      unfold finish encode_base64 encode_groups missing_of pad_with decode_from in refl
  decode_from-encode false [] out d h =
      unfold finish encode_base64 encode_groups missing_of pad_with decode_from in refl
  decode_from-encode true (a ∷ []) out d (p, _) =
      unfold encode_base64 encode_groups missing_of pad_with letters in
      finish_one a d (b'=' ∷ b'=' ∷ []) out (ends_pad (b'=' ∷ [])) p
  decode_from-encode false (a ∷ []) out d (p, _) =
      unfold encode_base64 encode_groups missing_of letters in finish_one a d [] out ends_nil p
  decode_from-encode true (a ∷ b ∷ []) out d (p, (q, _)) =
      unfold encode_base64 encode_groups missing_of pad_with letters in
      finish_two a d (b'=' ∷ []) out (ends_pad []) p b q
  decode_from-encode false (a ∷ b ∷ []) out d (p, (q, _)) =
      unfold encode_base64 encode_groups missing_of letters in finish_two a d [] out ends_nil p b q
  decode_from-encode pad (a ∷ b ∷ c ∷ input) out d (p, (q, (r, h))) =
      rw
        (
          encode_base64-cons pad alphabet a b c input,
          decode_group inverse a b c (encode_base64 pad alphabet input) out d p q r,
        )
        (decode_from-encode pad input (c ∷ b ∷ a ∷ out) (c % 64) h)

  decode-encode :
      (pad : Bool) (input : List ℕ)
      → AreBytes input
      → decode_base64 table (encode_base64 pad alphabet input) ≡ input
  unfolding decode_base64
  decode-encode pad input h = decode_from-encode pad input [] 0 h

-- Decoding gives back the bytes that were encoded with padding.
pub base642bin-bin2base64 : (bin : List ℕ) → AreBytes bin → base642bin (bin2base64 bin) ≡ bin
unfolding base642bin bin2base64
base642bin-bin2base64 = decode-encode base64-IsInverse true

-- The unpadded text decodes to the bytes, with the standard alphabet and with the URL-safe one.
pub base642bin_unpadded-bin2base64_unpadded :
    (bin : List ℕ)
    → AreBytes bin
    → (base642bin_unpadded (bin2base64_unpadded bin) ≡ bin)
      × (base642bin_urlsafe_unpadded (bin2base64_urlsafe_unpadded bin) ≡ bin)
unfolding base642bin_unpadded bin2base64_unpadded base642bin_urlsafe_unpadded
    bin2base64_urlsafe_unpadded
base642bin_unpadded-bin2base64_unpadded bin h =
    (decode-encode base64-IsInverse false bin h, decode-encode base64_urlsafe-IsInverse false bin h)

length-letters :
    (alphabet rest : List ℕ) (w : ℕ) → length (letters alphabet w ++ rest) ≡ length rest + 4
unfolding letters
length-letters alphabet rest w = omega arith

length-encode_base64_padded :
    (alphabet input : List ℕ)
    → length (encode_base64 true alphabet input) ≡ 4 * ((length input + 2) / 3)
length-encode_base64_padded alphabet [] =
    unfold encode_base64 encode_groups missing_of pad_with in refl
length-encode_base64_padded alphabet (a ∷ []) =
    unfold encode_base64 encode_groups missing_of pad_with letters in refl
length-encode_base64_padded alphabet (a ∷ b ∷ []) =
    unfold encode_base64 encode_groups missing_of pad_with letters in refl
length-encode_base64_padded alphabet (a ∷ b ∷ c ∷ input) =
    rw
      (
        encode_base64-cons true alphabet a b c input,
        length-letters alphabet (encode_base64 true alphabet input) (a * 2 ^ 16 + b * 2 ^ 8 + c),
      )
      (omega (arith, length-encode_base64_padded alphabet input))

length-encode_base64_unpadded :
    (alphabet input : List ℕ)
    → length (encode_base64 false alphabet input) ≡ (length input * 4 + 2) / 3
length-encode_base64_unpadded alphabet [] = unfold encode_base64 encode_groups missing_of in refl
length-encode_base64_unpadded alphabet (a ∷ []) =
    unfold encode_base64 encode_groups missing_of letters in refl
length-encode_base64_unpadded alphabet (a ∷ b ∷ []) =
    unfold encode_base64 encode_groups missing_of letters in refl
length-encode_base64_unpadded alphabet (a ∷ b ∷ c ∷ input) =
    rw
      (
        encode_base64-cons false alphabet a b c input,
        length-letters alphabet (encode_base64 false alphabet input) (a * 2 ^ 16 + b * 2 ^ 8 + c),
      )
      (omega (arith, length-encode_base64_unpadded alphabet input))

-- The padded text has four letters for each begun group of three bytes; the unpadded text has as
-- many letters as the capacity that the code reserves, (4 * size + 2) / 3.
pub length-bin2base64 :
    (bin : List ℕ)
    → (length (bin2base64 bin) ≡ 4 * ((length bin + 2) / 3))
      × (length (bin2base64_unpadded bin) ≡ (length bin * 4 + 2) / 3)
unfolding bin2base64 bin2base64_unpadded
length-bin2base64 bin = (
  length-encode_base64_padded base64_alphabet bin,
  length-encode_base64_unpadded base64_alphabet bin,
)
