-- ===== src/Encoding/Base58/Steps.antt =====
-- One round of each loop, in terms of the value of the digits.
use native.Mathlib.Omega.{div_any, pow_step}
use native.Mathlib.Nat.{
  pow-zero, mod-lt, mod-eq_of_lt, mul-le-mul_right, mul-add, mul_assoc, mul_comm, mul_left_comm,
  div-lt_iff_lt-mul,
}
use mtxclient.Shared.{
  ℕ, zero, suc, ◌+◌, ◌*◌, ◌/◌, ◌%◌, ◌^◌, ◌<◌, ◌≤◌, ◌≡◌, ◌∙◌, refl, sym, ap, Bool-cases, inl, inr,
  some, List, [], ◌∷◌, ◌++◌, length, arith, ◌==◌, ==_iff, true, false,
}
use mtxclient.Encoding.Base58.{total, scale_digits, scale_carry, grow, push_bytes}
use mtxclient.Encoding.Base58.Digits.{value, AreDigits, NoTopZero, value-nil}

pub NoTopZero-cons : (x : ℕ) (xs : List ℕ) → (xs ≡ [] → 0 < x) → NoTopZero xs → NoTopZero (x ∷ xs)
NoTopZero-cons x [] h top = h refl
NoTopZero-cons x (y ∷ xs) h top = top

module _ (factor base : ℕ) (f : 0 < factor) (b : 1 < base) (fits : base * factor ≤ 2 ^ 32) where
  -- No product wraps around.
  total-eq : (carry x : ℕ) → x < base → carry < factor → total factor carry x ≡ carry + x * factor
  total-eq carry x p q =
      mod-eq_of_lt
        (omega (arith, fits, mul-le-mul_right {m = suc x} {n = base} factor (omega (arith, p))))

  total-lt : (carry x : ℕ) → x < base → carry < factor → total factor carry x / base < factor
  total-lt carry x p q = (div-lt_iff_lt-mul (omega arith)).1 (
      omega (
        arith,
        total-eq carry x p q,
        mul-le-mul_right {m = suc x} {n = base} factor (omega (arith, p)),
        mul_comm factor base,
      ))

  pub scale_carry-lt :
      (carry : ℕ) (xs : List ℕ)
      → AreDigits base xs
      → carry < factor
      → scale_carry factor base carry xs < factor
  unfolding scale_carry
  scale_carry-lt carry [] h q = q
  scale_carry-lt carry (x ∷ xs) (p, h) q =
      scale_carry-lt (total factor carry x / base) xs h (total-lt carry x p q)

  pub scale_digits-AreDigits :
      (carry : ℕ) (xs : List ℕ) → AreDigits base (scale_digits factor base carry xs)
  unfolding scale_digits
  scale_digits-AreDigits carry [] = tt
  scale_digits-AreDigits carry (x ∷ xs) = (
    mod-lt (total factor carry x) (omega arith),
    scale_digits-AreDigits (total factor carry x / base) xs,
  )

  pub length-scale_digits :
      (carry : ℕ) (xs : List ℕ) → length (scale_digits factor base carry xs) ≡ length xs
  unfolding scale_digits
  length-scale_digits carry [] = refl
  length-scale_digits carry (x ∷ xs) = ap suc (length-scale_digits (total factor carry x / base) xs)

  -- The digits and the carry are those of the value times the factor plus the carry before.
  pub scale-value :
      (carry : ℕ) (xs : List ℕ)
      → AreDigits base xs
      → carry < factor
      → value base (scale_digits factor base carry xs)
          + base ^ length xs * scale_carry factor base carry xs
        ≡ factor * value base xs + carry
  unfolding scale_digits scale_carry value
  scale-value carry [] h q = rw (pow-zero base) (omega arith)
  scale-value carry (x ∷ xs) (p, h) q =
      let t = total factor carry x in
      let r = value base (scale_digits factor base (t / base) xs) in
      let c = scale_carry factor base (t / base) xs in
      let pow = base ^ length xs in
      let v = value base xs in
      let ih : base * (r + pow * c) ≡ base * (factor * v + t / base) =
        ap (λ n. base * n) (scale-value (t / base) xs h (total-lt carry x p q)) in
      rw (pow_step base (length xs)) (
        omega (
          arith,
          ih,
          mul-add base r (pow * c),
          mul_assoc base pow c,
          mul-add base (factor * v) (t / base),
          mul_left_comm base factor v,
          mul-add factor x (base * v),
          mul_comm x factor,
          div_any t base,
          total-eq carry x p q,
        ))

  -- No zero comes to the top.
  pub scale-NoTopZero :
      (carry : ℕ) (xs more : List ℕ)
      → AreDigits base xs
      → carry < factor
      → NoTopZero xs
      → (more ≡ [] → scale_carry factor base carry xs ≡ 0)
      → NoTopZero more
      → NoTopZero (scale_digits factor base carry xs ++ more)
  unfolding scale_digits scale_carry
  scale-NoTopZero carry [] more h q top e k = k
  scale-NoTopZero carry (x ∷ []) [] (p, h) q top e k =
      let t = total factor carry x in
      let no_carry : t / base ≡ 0 = e refl in
      omega (
        arith,
        div_any t base,
        ap (λ n. base * n) no_carry,
        total-eq carry x p q,
        mul-le-mul_right {m = 1} {n = x} factor (omega (arith, top)),
      )
  scale-NoTopZero carry (x ∷ []) (y ∷ more) (p, h) q top e k = k
  scale-NoTopZero carry (x ∷ (y ∷ xs)) more (p, h) q top e k =
      scale-NoTopZero (total factor carry x / base) (y ∷ xs) more h (total-lt carry x p q) top e k

-- A carry with no higher digits is its lowest digit.
low_digit :
    (base carry : ℕ) (more : List ℕ)
    → value base more ≡ carry / base
    → more ≡ []
    → (carry == 0) ≡ false
    → 0 < carry % base
low_digit base carry more v empty positive = omega (
  arith,
  ap (λ n. base * n) (sym v ∙ ap (value base) empty ∙ value-nil base),
  div_any carry base,
  not_zero carry positive,
)
  where
    not_zero : (carry : ℕ) → (carry == 0) ≡ false → 0 < carry
    not_zero carry positive = ground arith

-- The digits that the encoder adds are those of the carry, and they fit the room.
pub grow-some :
    (room carry : ℕ)
    → carry < 58 ^ room
    → (more : List ℕ) × (grow room carry ≡ some more)
      × (value 58 more ≡ carry)
      × AreDigits 58 more
      × NoTopZero more
      × (length more ≤ room)
unfolding grow value
grow-some zero carry h = (
  [],
  rw (zero_carry carry (omega (arith, h, pow-zero 58))) refl,
  omega (arith, h, pow-zero 58),
  tt,
  tt,
  omega arith,
)
  where
    zero_carry : (carry : ℕ) → carry ≡ 0 → (carry == 0) ≡ true
    zero_carry carry e = ground arith
grow-some (suc room) carry h = elim (Bool-cases (carry == 0)) [
  | inl none_left ↦ ([], rw none_left refl, sym ((==_iff carry 0).0 none_left), tt, tt, omega arith)
  | inr some_left ↦
      let (more, e, v, digits, top, fits) =
        grow-some room (carry / 58) (omega (arith, h, pow_step 58 room)) in
      (
        carry % 58 ∷ more,
        rw (some_left, e) refl,
        omega (arith, v),
        (omega arith, digits),
        NoTopZero-cons (carry % 58) more (λ empty. low_digit 58 carry more v empty some_left) top,
        omega (arith, fits),
      )
]

-- The bytes that the decoder adds are those of the carry.
pub push_bytes-value :
    (rounds carry : ℕ)
    → carry < 256 ^ rounds
    → (value 256 (push_bytes rounds carry) ≡ carry)
      × AreDigits 256 (push_bytes rounds carry)
      × NoTopZero (push_bytes rounds carry)
unfolding push_bytes value
push_bytes-value zero carry h = (omega (arith, h, pow-zero 256), tt, tt)
push_bytes-value (suc rounds) carry h = elim (Bool-cases (carry == 0)) [
  | inl none_left ↦ rw none_left (sym ((==_iff carry 0).0 none_left), tt, tt)
  | inr some_left ↦
      let (v, digits, top) =
        push_bytes-value rounds (carry / 256) (omega (arith, h, pow_step 256 rounds)) in
      rw some_left (
        omega (arith, v),
        (omega arith, digits),
        NoTopZero-cons (carry % 256) (push_bytes rounds (carry / 256))
            (λ empty. low_digit 256 carry (push_bytes rounds (carry / 256)) v empty some_left) top,
      )
]
