-- ===== src/Encoding/Base64/Groups.antt =====
-- One group of letters through the decoder, for any alphabet with an inverse.
use mtxclient.Shared.{
  ℕ, zero, suc, ◌+◌, ◌-◌, ◌*◌, ◌/◌, ◌%◌, ◌^◌, ◌<◌, ◌≤◌, ◌≡◌, ◌∙◌, refl, List, [], ◌∷◌, ◌++◌, arith,
  get_or, ap, length, set, take,
}
use mtxclient.Encoding.Alphabet.{IsInverse}
use mtxclient.Encoding.Base64.{
  letters, Decoder, store, next_index, decode_from, missing_of, pad_with,
}

same_end :
    (table input out : List ℕ) {x y z t x' y' z' t' : ℕ}
    → x ≡ x'
    → y ≡ y'
    → z ≡ z'
    → t ≡ t'
    → decode_from table input (record { decoded = z ∷ y ∷ x ∷ out; bit_index = 0; d = t })
      ≡ decode_from table input (record { decoded = z' ∷ y' ∷ x' ∷ out; bit_index = 0; d = t' })
same_end table input out p q r s = cc

module _ {alphabet table : List ℕ} (inverse : IsInverse 64 alphabet table) where
  -- One letter is one round of the loop.
  pub decode_letter :
      (i : ℕ) (input : List ℕ) (s : Decoder)
      → i < 64
      → decode_from table (get_or alphabet i 0 ∷ input) s
        ≡ decode_from table input (record {
          decoded = store s.bit_index i s.decoded;
          bit_index = next_index s.bit_index;
          d = i;
        })
  unfolding decode_from
  decode_letter i input s lt = ground (arith, inverse.back i lt, inverse.no_pad i lt)

  -- Two letters, from the start of a group.
  pub decode_two :
      (i j : ℕ) (input out : List ℕ) (d : ℕ)
      → i < 64
      → j < 64
      → decode_from table
          (get_or alphabet i 0 ∷ get_or alphabet j 0 ∷ input)
          (record { decoded = out; bit_index = 0; d = d })
        ≡ decode_from table input (record {
          decoded = (j * 16 % 256) ∷ ((i * 4 % 256 + j / 16) % 256) ∷ out;
          bit_index = 2;
          d = j;
        })
  unfolding store next_index
  decode_two i j input out d p q =
      decode_letter i (get_or alphabet j 0 ∷ input) (record { decoded = out; bit_index = 0; d = d })
        p
      ∙ decode_letter j input (record { decoded = (i * 4 % 256) ∷ out; bit_index = 1; d = i }) q

  -- Two more.
  pub decode_third :
      (k : ℕ) (input out : List ℕ) (x d : ℕ)
      → k < 64
      → decode_from table
          (get_or alphabet k 0 ∷ input)
          (record { decoded = x ∷ out; bit_index = 2; d = d })
        ≡ decode_from table input
            (record { decoded = (k * 64 % 256) ∷ ((x + k / 4) % 256) ∷ out; bit_index = 3; d = k })
  unfolding store next_index
  decode_third k input out x d p =
      decode_letter k input (record { decoded = x ∷ out; bit_index = 2; d = d }) p

  pub decode_last :
      (k : ℕ) (input out : List ℕ) (x d : ℕ)
      → k < 64
      → decode_from table
          (get_or alphabet k 0 ∷ input)
          (record { decoded = x ∷ out; bit_index = 3; d = d })
        ≡ decode_from table input (record { decoded = ((x + k) % 256) ∷ out; bit_index = 0; d = k })
  unfolding store next_index
  decode_last k input out x d p =
      decode_letter k input (record { decoded = x ∷ out; bit_index = 3; d = d }) p

  decode_quad :
      (i j k l : ℕ) (input out : List ℕ) (d : ℕ)
      → i < 64
      → j < 64
      → k < 64
      → l < 64
      → decode_from table
          (get_or alphabet i 0
            ∷ get_or alphabet j 0
            ∷ get_or alphabet k 0
            ∷ get_or alphabet l 0
            ∷ input)
          (record { decoded = out; bit_index = 0; d = d })
        ≡ decode_from table input (record {
          decoded =
              ((k * 64 % 256 + l) % 256)
              ∷ ((j * 16 % 256 + k / 4) % 256)
              ∷ ((i * 4 % 256 + j / 16) % 256)
              ∷ out;
          bit_index = 0;
          d = l;
        })
  decode_quad i j k l input out d p q r s =
      decode_two i j _ out d p q
      ∙ decode_third k _ (((i * 4 % 256 + j / 16) % 256) ∷ out) (j * 16 % 256) j r
      ∙ decode_last l input (((j * 16 % 256 + k / 4) % 256) ∷ ((i * 4 % 256 + j / 16) % 256) ∷ out)
          (k * 64 % 256) k s

  -- A whole group gives its three bytes, and the decoder stands at the start of a group again.
  pub decode_group :
      (a b c : ℕ) (input out : List ℕ) (d : ℕ)
      → a < 256
      → b < 256
      → c < 256
      → decode_from table
          (letters alphabet (a * 2 ^ 16 + b * 2 ^ 8 + c) ++ input)
          (record { decoded = out; bit_index = 0; d = d })
        ≡ decode_from table input (record { decoded = c ∷ b ∷ a ∷ out; bit_index = 0; d = c % 64 })
  unfolding letters
  decode_group a b c input out d p q r =
      let w : ℕ = a * 65536 + b * 256 + c in
      let i : ℕ = w / 262144 % 64 in
      let j : ℕ = w / 4096 % 64 in
      let k : ℕ = w / 64 % 64 in
      let l : ℕ = w % 64 in
      let first : (i * 4 % 256 + j / 16) % 256 ≡ a = omega arith in
      let second : (j * 16 % 256 + k / 4) % 256 ≡ b = omega arith in
      let third : (k * 64 % 256 + l) % 256 ≡ c = omega arith in
      let last : l ≡ c % 64 = omega arith in
      decode_quad i j k l input out d (omega arith) (omega arith) (omega arith) (omega arith)
      ∙ same_end table input out first second third last

-- Three more bytes need as much padding.
pub missing_of_group : (n : ℕ) → missing_of (suc (suc (suc n))) ≡ missing_of n
unfolding missing_of
missing_of_group n = ground arith

length-set : (xs : List ℕ) (i v : ℕ) → length (set xs i v) ≡ length xs
length-set [] i v = refl
length-set (x ∷ xs) zero v = refl
length-set (x ∷ xs) (suc i) v = ap suc (length-set xs i v)

pub pad_with-cons :
    (m x : ℕ) (ys : List ℕ) → m ≤ length ys → pad_with m (x ∷ ys) ≡ x ∷ pad_with m ys
unfolding pad_with
pad_with-cons zero x ys h = refl
pad_with-cons (suc m) x ys h =
    let e : suc (length ys) - suc m ≡ suc (length ys - suc m) = omega arith in
    rw e (pad_with-cons m x (set ys (length ys - suc m) b'=') (rw length-set (omega arith)))

module _ (m w x y z : ℕ) (ys : List ℕ) (short : m ≤ length ys) where
  pub pad_with-group : pad_with m (w ∷ x ∷ y ∷ z ∷ ys) ≡ w ∷ x ∷ y ∷ z ∷ pad_with m ys
  pad_with-group = rw (
    pad_with-cons m w (x ∷ y ∷ z ∷ ys) (omega arith),
    pad_with-cons m x (y ∷ z ∷ ys) (omega arith),
    pad_with-cons m y (z ∷ ys) (omega arith),
    pad_with-cons m z ys short,
  )

  pub take-group :
      take (suc (suc (suc (suc (length ys)))) - m) (w ∷ x ∷ y ∷ z ∷ ys)
      ≡ w ∷ x ∷ y ∷ z ∷ take (length ys - m) ys
  take-group =
      let e : suc (suc (suc (suc (length ys)))) - m ≡ suc (suc (suc (suc (length ys - m)))) =
        omega arith in
      rw e
