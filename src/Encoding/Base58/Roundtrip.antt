-- ===== src/Encoding/Base58/Roundtrip.antt =====
-- Base58 round trips, and the byte strings of zeros alone, which do not come back.
use native.Mathlib.Omega.{pow_step}
use native.Mathlib.Nat.{mul-le-mul_right, mul_assoc, mul_left_comm}
use mathlib.Core.Path.{subst}
use mathlib.Core.List.{reverse_aux, reverse-reverse, reverse-append}
use mtxclient.Shared.{
  ℕ, zero, suc, ◌+◌, ◌*◌, ◌/◌, ◌^◌, ◌<◌, ◌≡◌, ◌∙◌, refl, sym, ap, Bool-cases, inl, inr, true, false,
  not, some, List, [], ◌∷◌, ◌++◌, length, All, All-append, arith, AreBytes, ◌==◌, any, get_or, map,
  replicate, reverse,
}
use mtxclient.Encoding.Alphabet.{base58_alphabet, base58_to_int, base58-IsInverse}
use mtxclient.Encoding.Base58.{
  encode_bytes, encode_base58, decode_letters, decode_base58, leading, bin2base58, base582bin,
}
use mtxclient.Encoding.Base58.Digits.{
  value, big, AreDigits, value-injective, value-reverse, big-reverse,
}
use mtxclient.Encoding.Base58.Bounds.{room_for, pow-room_for}
use mtxclient.Encoding.Base58.Zeros.{
  letter, strip, HeadPos, strip-HeadPos, leading-strip, big-strip, All-strip, All-reverse_aux,
  NoTopZero-reverse, leading-reverse, leading-append, leading-letters, letters-replicate,
  big-replicate,
}
use mtxclient.Encoding.Base58.Loops.{
  Represents, encode_bytes-some, encode_bytes-start, encode_bytes-cons, encode_byte-zero, big-le,
}
use mtxclient.Encoding.Base58.Letters.{decode_all, decode_letters-map, decode_all-Represents}

nil-Represents : (base size : ℕ) → Represents base 0 size []
nil-Represents base size = record {
  has_value = unfold value in refl;
  digits = tt;
  top = tt;
  size_bound = omega arith;
}

All-replicate : (P : ℕ → Type 0) (n x : ℕ) → P x → All P (replicate n x)
All-replicate P zero x h = tt
All-replicate P (suc n) x h = (h, All-replicate P n x h)

reverse_aux-replicate :
    (n m x : ℕ) → reverse_aux (replicate n x) (replicate m x) ≡ replicate (n + m) x
reverse_aux-replicate zero m x = ap (λ k. replicate k x) (omega arith)
reverse_aux-replicate (suc n) m x =
    reverse_aux-replicate n (suc m) x ∙ ap (λ k. replicate k x) (omega arith)

reverse-replicate : (n x : ℕ) → reverse (replicate n x) ≡ replicate n x
reverse-replicate n x = reverse_aux-replicate n 0 x ∙ ap (λ k. replicate k x) (omega arith)

decode_base58-some :
    (table text result : List ℕ)
    → decode_letters table [] text ≡ some result
    → decode_base58 table text ≡ reverse (result ++ replicate (leading b'1' text) 0)
unfolding decode_base58
decode_base58-some table text result e = ground arith

encode_base58-some :
    (alphabet input digits : List ℕ) (byte : ℕ)
    → encode_bytes (room_for (length (byte ∷ input))) (0 ∷ []) (byte ∷ input) ≡ some digits
    → encode_base58 alphabet (byte ∷ input)
      ≡ some (
          replicate (leading 0 (byte ∷ input)) b'1'
          ++ map (λ d. get_or alphabet d 0) (reverse digits))
unfolding encode_base58
encode_base58-some alphabet input digits byte e = ground arith

-- The letters of some zeros and of digits whose highest is not zero are read as the bytes of their
-- value behind as many zero bytes.
base582bin-letters :
    (count : ℕ) (bytes digits : List ℕ) (size : ℕ)
    → Represents 58 (big 256 0 bytes) size digits
    → AreBytes bytes
    → HeadPos bytes
    → base582bin (replicate count b'1' ++ map letter (reverse digits)) ≡ replicate count 0 ++ bytes
unfolding base582bin
base582bin-letters count bytes digits size r small head =
    let all = replicate count 0 ++ reverse digits in
    let are_digits : AreDigits 58 all =
      All-append (λ x. x < 58) (replicate count 0) (reverse digits)
        (All-replicate (λ x. x < 58) count 0 (omega arith))
        (All-reverse_aux (λ x. x < 58) digits [] r.digits tt) in
    let read = decode_all-Represents 0 0 [] all (nil-Represents 256 0) are_digits in
    let same : decode_all [] all ≡ reverse bytes =
      value-injective 256 (decode_all [] all) (reverse bytes) (omega arith) read.digits
        (All-reverse_aux (λ x. x < 256) bytes [] small tt) read.top (NoTopZero-reverse bytes head)
        (read.has_value
          ∙ big-replicate 58 count (reverse digits)
          ∙ big-reverse 58 digits
          ∙ r.has_value
          ∙ sym (value-reverse 256 bytes)) in
    let ones : leading b'1' (map letter all) ≡ count =
      leading-letters all are_digits
      ∙ leading-append count 0 (reverse digits)
      ∙ ap (λ k. count + k) (leading-reverse digits r.top)
      ∙ omega arith in
    ap (decode_base58 base58_to_int) (sym (letters-replicate count (reverse digits)))
    ∙ decode_base58-some base58_to_int (map letter all) (decode_all [] all)
        (decode_letters-map base58_alphabet base58_to_int [] all base58-IsInverse are_digits)
    ∙ ap (λ k. reverse (decode_all [] all ++ replicate k 0)) ones
    ∙ ap (λ xs. reverse (xs ++ replicate count 0)) same
    ∙ reverse-append (reverse bytes) (replicate count 0)
    ∙ ap (λ xs. xs ++ reverse (reverse bytes)) (reverse-replicate count 0)
    ∙ ap (λ xs. replicate count 0 ++ xs) (reverse-reverse bytes)

-- The value of the bytes is below the bound of the room.
big-lt : (n : ℕ) (xs : List ℕ) → AreBytes xs → big 256 n xs < (n + 1) * 256 ^ length xs
unfolding big
big-lt n [] h = omega arith
big-lt n (x ∷ xs) (small, h) =
    let p = 256 ^ length xs in
    omega (
      arith,
      big-lt (256 * n + x) xs h,
      mul-le-mul_right {m = 256 * n + x + 1} {n = 256 * (n + 1)} p (omega (arith, small)),
      mul_assoc 256 (n + 1) p,
      mul_left_comm (n + 1) 256 p,
      ap (λ k. (n + 1) * k) (pow_step 256 (length xs)),
    )

big-pos : (n : ℕ) (xs : List ℕ) → any (λ b. not (b == 0)) xs ≡ true → 0 < big 256 n xs
unfolding big
big-pos n [] h = cc
big-pos n (x ∷ xs) h = elim (Bool-cases (x == 0)) [
  | inl is_zero ↦ big-pos (256 * n + x) xs (rw is_zero at h)
  | inr positive ↦ omega (arith, big-le 256 (256 * n + x) xs (omega arith), not_zero x positive)
]
  where
    not_zero : (x : ℕ) → (x == 0) ≡ false → 0 < x
    not_zero x positive = ground arith

plus_one : (n : ℕ) → n + 1 ≡ suc n
plus_one n = omega arith

-- Decoding gives back the bytes that were encoded, where one of them is not zero; the encoder finds
-- room for every digit.
pub base582bin-bin2base58 :
    (bin : List ℕ)
    → AreBytes bin
    → any (λ b. not (b == 0)) bin ≡ true
    → (text : List ℕ) × (bin2base58 bin ≡ some text) × (base582bin text ≡ bin)
unfolding bin2base58
base582bin-bin2base58 [] h some_byte = cc
base582bin-bin2base58 (byte ∷ input) h some_byte =
    let bin = byte ∷ input in
    let room = length bin * 138 / 100 in
    let bound : big 256 0 bin < 58 ^ suc room =
      omega (arith, big-lt 0 bin h, pow-room_for (length bin), ap (λ k. 58 ^ k) (plus_one room)) in
    let (digits, e, r) =
      encode_bytes-some (suc room) 0 [] bin (nil-Represents 58 (suc room)) h bound in
    let encoded : encode_bytes (room_for (length bin)) (0 ∷ []) bin ≡ some digits =
      ap (λ k. encode_bytes k (0 ∷ []) bin) (plus_one room)
      ∙ encode_bytes-start room bin h (big-pos 0 bin some_byte)
      ∙ e in
    (
      replicate (leading 0 bin) b'1' ++ map letter (reverse digits),
      encode_base58-some base58_alphabet input digits byte encoded,
      base582bin-letters (leading 0 bin) (strip bin) digits (suc room)
            (subst (λ k. Represents 58 k (suc room) digits) (sym (big-strip 256 bin)) r)
            (All-strip (λ b. b < 256) bin h) (strip-HeadPos bin)
          ∙ leading-strip bin,
    )

encode_bytes-zeros : (room n : ℕ) → encode_bytes (suc room) (0 ∷ []) (replicate n 0) ≡ some (0 ∷ [])
encode_bytes-zeros room zero = unfold encode_bytes in refl
encode_bytes-zeros room (suc n) =
    encode_bytes-cons (suc room) 0 (0 ∷ []) (0 ∷ []) (replicate n 0) (encode_byte-zero room).0
    ∙ encode_bytes-zeros room n

append-none : (xs : List ℕ) → xs ++ [] ≡ xs
append-none [] = refl
append-none (x ∷ xs) = ap (λ t. x ∷ t) (append-none xs)

leading-replicate : (n : ℕ) → leading 0 (replicate n 0) ≡ n
unfolding leading
leading-replicate zero = refl
leading-replicate (suc n) = ap suc (leading-replicate n)

replicate-snoc : (n x : ℕ) → replicate n x ++ x ∷ [] ≡ replicate (suc n) x
replicate-snoc zero x = refl
replicate-snoc (suc n) x = ap (λ t. x ∷ t) (replicate-snoc n x)

plus_two : (n : ℕ) → suc (suc n) ≡ n + 2
plus_two n = omega arith

-- A string of zeros alone is written with one letter more than it has bytes, and does not come back:
-- decoding gives one zero more.
pub base582bin-zeros :
    (n : ℕ)
    → (bin2base58 (replicate (suc n) 0) ≡ some (replicate (n + 2) b'1'))
      × (base582bin (replicate (n + 2) b'1') ≡ replicate (n + 2) 0)
unfolding bin2base58
base582bin-zeros n = (
  encode_base58-some base58_alphabet (replicate n 0) (0 ∷ []) 0 (
        ap (λ k. encode_bytes k (0 ∷ []) (replicate (suc n) 0))
          (plus_one (suc (length (replicate n 0)) * 138 / 100))
        ∙ encode_bytes-zeros (suc (length (replicate n 0)) * 138 / 100) (suc n))
      ∙ ap some (
          ap (λ k. replicate k b'1' ++ b'1' ∷ []) (leading-replicate (suc n))
          ∙ replicate-snoc (suc n) b'1'
          ∙ ap (λ k. replicate k b'1') (plus_two n)),
  ap base582bin (sym (append-none (replicate (n + 2) b'1')))
      ∙ base582bin-letters (n + 2) [] [] 0 (unfold big in nil-Represents 58 0) tt tt
      ∙ append-none (replicate (n + 2) 0),
)
