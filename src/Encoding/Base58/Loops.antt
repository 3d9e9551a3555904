-- ===== src/Encoding/Base58/Loops.antt =====
-- The loops of the encoder keep the value, and no zero comes to the top.
use native.Mathlib.Nat.{mul-le-mul_right, lt_of_mul-lt-mul_left}
use mtxclient.Shared.{
  ℕ, zero, suc, ◌+◌, ◌-◌, ◌*◌, ◌/◌, ◌%◌, ◌^◌, ◌<◌, ◌≤◌, ◌≡◌, ◌∙◌, refl, sym, ap, Bool-cases,
  Option-cases, inl, inr, Option, none, some, List, [], ◌∷◌, ◌++◌, length, length-append,
  All-append, arith, AreBytes, ◌==◌, ==_iff, false,
}
use mtxclient.Encoding.Base58.{total, scale_digits, scale_carry, grow, encode_byte, encode_bytes}
use mtxclient.Encoding.Base58.Digits.{value, big, AreDigits, NoTopZero, value-append, value-nil}
use mtxclient.Encoding.Base58.Bounds.{pow-add}
use mtxclient.Encoding.Base58.Steps.{
  scale_digits-AreDigits, length-scale_digits, scale-value, scale-NoTopZero, grow-some,
}

-- The digits of a number, of `size` at most.
pub record Represents (base n size : ℕ) (xs : List ℕ) : Type 0 where
  pub has_value : value base xs ≡ n
  pub digits : AreDigits base xs
  pub top : NoTopZero xs
  pub size_bound : length xs ≤ size

-- The value of a carry, where there are no digits for it.
no_carry : (base carry : ℕ) (more : List ℕ) → value base more ≡ carry → more ≡ [] → carry ≡ 0
no_carry base carry more v empty = sym v ∙ ap (value base) empty ∙ value-nil base

-- What is left of the bound for the carry.
carry_bound :
    (used room low carry : ℕ) → low + 58 ^ used * carry < 58 ^ (used + room) → carry < 58 ^ room
carry_bound used room low carry h =
    lt_of_mul-lt-mul_left (58 ^ used) (omega (arith, h, pow-add 58 used room))

-- The new digits, put behind those that were there.
pub append-Represents :
    (base factor carry size n : ℕ) (xs more : List ℕ) (f : 0 < factor) (b : 1 < base)
    (fits : base * factor ≤ 2 ^ 32)
    → Represents base n size xs
    → carry < factor
    → value base more ≡ scale_carry factor base carry xs
    → AreDigits base more
    → NoTopZero more
    → Represents base
        (factor * n + carry)
        (length xs + length more)
        (scale_digits factor base carry xs ++ more)
append-Represents base factor carry size n xs more f b fits r small v digits top = record {
  has_value =
      value-append base scaled more
      ∙ ap (λ k. value base scaled + base ^ k * value base more)
          (length-scale_digits factor base f b fits carry xs)
      ∙ ap (λ k. value base scaled + base ^ length xs * k) v
      ∙ scale-value factor base f b fits carry xs r.digits small
      ∙ ap (λ k. factor * k + carry) r.has_value;
  digits =
      All-append (λ x. x < base) scaled more (scale_digits-AreDigits factor base f b fits carry xs)
        digits;
  top =
      scale-NoTopZero factor base f b fits carry xs more r.digits small r.top
        (no_carry base (scale_carry factor base carry xs) more v) top;
  size_bound =
      omega (arith, length-append scaled more, length-scale_digits factor base f b fits carry xs);
}
  where
    scaled : List ℕ
    scaled = scale_digits factor base carry xs

weaken :
    (base n size more : ℕ) (xs : List ℕ)
    → Represents base n size xs
    → size ≤ more
    → Represents base n more xs
weaken base n size more xs r h = record {
  has_value = r.has_value;
  digits = r.digits;
  top = r.top;
  size_bound = omega (arith, r.size_bound);
}

encode_byte-grown :
    (size byte : ℕ) (xs more : List ℕ)
    → grow (size - length xs) (scale_carry 256 58 byte xs) ≡ some more
    → encode_byte size xs byte ≡ some (scale_digits 256 58 byte xs ++ more)
unfolding encode_byte
encode_byte-grown size byte xs more e = ground arith

pub encode_bytes-cons :
    (size byte : ℕ) (xs ys input : List ℕ)
    → encode_byte size xs byte ≡ some ys
    → encode_bytes size xs (byte ∷ input) ≡ encode_bytes size ys input
unfolding encode_bytes
encode_bytes-cons size byte xs ys input e = ground arith

pub encode_byte-some :
    (size n byte : ℕ) (xs : List ℕ)
    → Represents 58 n size xs
    → byte < 256
    → 256 * n + byte < 58 ^ size
    → (ys : List ℕ) × (encode_byte size xs byte ≡ some ys) × Represents 58 (256 * n + byte) size ys
encode_byte-some size n byte xs r small bound =
    let room = size - length xs in
    let carry = scale_carry 256 58 byte xs in
    let room_eq : length xs + room ≡ size = omega (arith, r.size_bound) in
    let low = value 58 (scale_digits 256 58 byte xs) in
    let total_eq : low + 58 ^ length xs * carry ≡ 256 * n + byte =
      scale-value 256 58 (omega arith) (omega arith) (omega arith) byte xs r.digits small
      ∙ ap (λ k. 256 * k + byte) r.has_value in
    let (more, e, v, digits, top, fits) = grow-some room carry (
      carry_bound (length xs) room low carry
        (omega (arith, total_eq, bound, ap (λ k. 58 ^ k) room_eq))) in
    (
      scale_digits 256 58 byte xs ++ more,
      encode_byte-grown size byte xs more e,
      weaken 58 (256 * n + byte) (length xs + length more) size
          (scale_digits 256 58 byte xs ++ more)
          (append-Represents 58 256 byte size n xs more (omega arith) (omega arith) (omega arith) r
            small v digits top)
          (omega (arith, fits, room_eq)),
    )

pub big-le : (base n : ℕ) (xs : List ℕ) → 0 < base → n ≤ big base n xs
unfolding big
big-le base n [] h = omega arith
big-le base n (x ∷ xs) h = omega (
  arith,
  big-le base (base * n + x) xs h,
  mul-le-mul_right {m = 1} {n = base} n (omega (arith, h)),
)

pub encode_bytes-some :
    (size n : ℕ) (xs input : List ℕ)
    → Represents 58 n size xs
    → AreBytes input
    → big 256 n input < 58 ^ size
    → (ys : List ℕ) × (encode_bytes size xs input ≡ some ys)
      × Represents 58 (big 256 n input) size ys
unfolding encode_bytes big
encode_bytes-some size n xs [] r h bound = (xs, refl, r)
encode_bytes-some size n xs (byte ∷ input) r (small, h) bound =
    let (ys, e, r') =
      encode_byte-some size n byte xs r small
        (omega (arith, bound, big-le 256 (256 * n + byte) input (omega arith))) in
    let (zs, e', r'') = encode_bytes-some size (256 * n + byte) ys input r' h bound in
    (zs, encode_bytes-cons size byte xs ys input e ∙ e', r'')

grow-zero : (room : ℕ) → grow room 0 ≡ some []
unfolding grow
grow-zero zero = refl
grow-zero (suc room) = refl

pub encode_byte-zero :
    (room : ℕ)
    → (encode_byte (suc room) (0 ∷ []) 0 ≡ some (0 ∷ [])) × (encode_byte (suc room) [] 0 ≡ some [])
unfolding scale_digits scale_carry
encode_byte-zero room = (
  encode_byte-grown (suc room) 0 (0 ∷ []) [] (grow-zero (suc room - 1)),
  encode_byte-grown (suc room) 0 [] [] (grow-zero (suc room - 0)),
)

encode_byte-none :
    (size byte : ℕ) (xs : List ℕ)
    → grow (size - length xs) (scale_carry 256 58 byte xs) ≡ none
    → encode_byte size xs byte ≡ none
unfolding encode_byte
encode_byte-none size byte xs e = ground arith

grow-suc :
    (room carry : ℕ)
    → (carry == 0) ≡ false
    → grow (suc room) carry ≡ elim (grow room (carry / 58)) as (λ _. Option (List ℕ)) [
      | none ↦ none
      | some xs ↦ some (carry % 58 ∷ xs)
    ]
unfolding grow
grow-suc room carry positive = rw positive refl

encode_byte-first :
    (room byte : ℕ)
    → byte < 256
    → (byte == 0) ≡ false
    → encode_byte (suc room) (0 ∷ []) byte ≡ encode_byte (suc room) [] byte
unfolding scale_digits scale_carry
encode_byte-first room byte small positive =
    let one_less : suc room - 1 ≡ room = omega arith in
    let all_room : suc room - 0 ≡ suc room = omega arith in
    let same : total 256 byte 0 ≡ byte = omega arith in
    elim (Option-cases (grow room (byte / 58))) [
      | inl full ↦
          encode_byte-none (suc room) byte (0 ∷ []) (rw (one_less, same) full)
          ∙ sym (
              encode_byte-none (suc room) byte []
                (rw all_room (grow-suc room byte positive ∙ rw full refl)))
      | inr (xs, grown) ↦
          encode_byte-grown (suc room) byte (0 ∷ []) xs (rw (one_less, same) grown)
          ∙ ap (λ n. some (n % 58 ∷ xs)) same
          ∙ sym (
              encode_byte-grown (suc room) byte [] (byte % 58 ∷ xs)
                (rw all_room (grow-suc room byte positive ∙ rw grown refl)))
    ]

encode_bytes-same :
    (size byte : ℕ) (xs ys input : List ℕ)
    → encode_byte size xs byte ≡ encode_byte size ys byte
    → encode_bytes size xs (byte ∷ input) ≡ encode_bytes size ys (byte ∷ input)
unfolding encode_bytes
encode_bytes-same size byte xs ys input e = rw (e, encode_bytes) refl

-- The first digit is a zero until a byte is not: then the digits are those of an empty start.
pub encode_bytes-start :
    (room : ℕ) (input : List ℕ)
    → AreBytes input
    → 0 < big 256 0 input
    → encode_bytes (suc room) (0 ∷ []) input ≡ encode_bytes (suc room) [] input
unfolding encode_bytes big
encode_bytes-start room [] h pos = absurd (omega arith)
encode_bytes-start room (byte ∷ input) (small, h) pos = elim (Bool-cases (byte == 0)) [
  | inl zero_byte ↦
      let is_zero : byte ≡ 0 = (==_iff byte 0).0 zero_byte in
      let (left, right) = encode_byte-zero room in
      encode_bytes-cons (suc room) byte (0 ∷ []) (0 ∷ []) input
        (ap (encode_byte (suc room) (0 ∷ [])) is_zero ∙ left)
      ∙ encode_bytes-start room input h
          (omega (arith, pos, ap (λ k. big 256 (256 * 0 + k) input) is_zero))
      ∙ sym (
          encode_bytes-cons (suc room) byte [] [] input
            (ap (encode_byte (suc room) []) is_zero ∙ right))
  | inr positive ↦
      encode_bytes-same (suc room) byte (0 ∷ []) [] input
        (encode_byte-first room byte small positive)
]
