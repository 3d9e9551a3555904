-- ===== src/Encoding/Base58/Letters.antt =====
-- The loop of the decoder: letters are read as digits, and the bytes keep their value.
use mtxclient.Shared.{
  ℕ, ◌+◌, ◌*◌, ◌≡◌, ◌∙◌, refl, some, List, [], ◌∷◌, length, arith, ◌==◌, false, get_or, map,
}
use mtxclient.Encoding.Alphabet.{IsInverse}
use mtxclient.Encoding.Base58.{scale_carry, push_bytes, decode_digit, decode_letters}
use mtxclient.Encoding.Base58.Digits.{big, AreDigits}
use mtxclient.Encoding.Base58.Steps.{scale_carry-lt, push_bytes-value}
use mtxclient.Encoding.Base58.Loops.{Represents, append-Represents}

unfoldable pub decode_all : List ℕ → List ℕ → List ℕ
decode_all result [] = result
decode_all result (x ∷ xs) = decode_all (decode_digit result x) xs

not_eq : (a b : ℕ) → (a ≡ b → ⊥) → (a == b) ≡ false
not_eq a b h = ground arith

decode_letters-cons :
    (table result input : List ℕ) (b d : ℕ)
    → (b == b' ') ≡ false
    → (b == 0xff) ≡ false
    → get_or table b 0xff ≡ d
    → decode_letters table result (b ∷ input) ≡ decode_letters table (decode_digit result d) input
unfolding decode_letters
decode_letters-cons table result input b d p q e = rw (p, q, e) refl

-- A letter is read as its digit.
pub decode_letters-map :
    (alphabet table result : List ℕ) (xs : List ℕ)
    → IsInverse 58 alphabet table
    → AreDigits 58 xs
    → decode_letters table result (map (λ d. get_or alphabet d 0) xs) ≡ some (decode_all result xs)
unfolding decode_letters decode_all
decode_letters-map alphabet table result [] inverse h = refl
decode_letters-map alphabet table result (x ∷ xs) inverse (small, h) =
    let b = get_or alphabet x 0 in
    decode_letters-cons table result (map (λ d. get_or alphabet d 0) xs) b x
      (not_eq b b' ' (inverse.no_space x small)) (not_eq b 0xff (inverse.no_end x small))
      (inverse.back x small)
    ∙ decode_letters-map alphabet table (decode_digit result x) xs inverse h

pub decode_all-Represents :
    (n size : ℕ) (result xs : List ℕ)
    → Represents 256 n size result
    → AreDigits 58 xs
    → Represents 256 (big 58 n xs) (length (decode_all result xs)) (decode_all result xs)
unfolding decode_all big
decode_all-Represents n size result [] r h = record {
  has_value = r.has_value;
  digits = r.digits;
  top = r.top;
  size_bound = omega arith;
}
decode_all-Represents n size result (x ∷ xs) r (small, h) =
    let carry = scale_carry 58 256 x result in
    let (v, digits, top) = push_bytes-value 4 carry (
      omega (
        arith,
        scale_carry-lt 58 256 (omega arith) (omega arith) (omega arith) x result r.digits small,
      )) in
    decode_all-Represents (58 * n + x) (length result + length (push_bytes 4 carry))
      (decode_digit result x) xs
      (unfold decode_digit in
        append-Represents 256 58 x size n result (push_bytes 4 carry) (omega arith) (omega arith)
          (omega arith) r small v digits top)
      h
