-- ===== src/Encoding/Base58/Digits.antt =====
-- Numbers as lists of digits, the lowest first: their value, and why the digits are determined by it.
use native.Mathlib.Omega.{pow_step}
use native.Mathlib.Nat.{
  pow-zero, mul-le-mul_left, add-mul-mod_self_left, mod-eq_of_lt, mul-div_cancel_left, mul-add,
  mul_assoc,
}
use mtxclient.Shared.{
  ℕ, ◌+◌, ◌*◌, ◌/◌, ◌%◌, ◌^◌, ◌<◌, ◌≡◌, ◌∙◌, refl, sym, ap, List, [], ◌∷◌, ◌++◌, length, arith, All,
  reverse,
}
use mathlib.Core.List.{reverse_aux, reverse-reverse}

-- The value of the digits in a base.
unfoldable pub value : ℕ → List ℕ → ℕ
value base [] = 0
value base (x ∷ xs) = x + base * value base xs

-- The value of the digits with the highest first, after those of `n`.
unfoldable pub big : ℕ → ℕ → List ℕ → ℕ
big base n [] = n
big base n (x ∷ xs) = big base (base * n + x) xs

abbrev pub AreDigits : ℕ → List ℕ → Type 0
AreDigits base = All (λ x. x < base)

-- The highest digit is not zero.
abbrev pub NoTopZero : List ℕ → Type 0
NoTopZero [] = Unit
NoTopZero (x ∷ []) = 0 < x
NoTopZero (x ∷ (y ∷ xs)) = NoTopZero (y ∷ xs)

pub value-append :
    (base : ℕ) (xs ys : List ℕ)
    → value base (xs ++ ys) ≡ value base xs + base ^ length xs * value base ys
unfolding value
value-append base [] ys = rw (pow-zero base) (omega arith)
value-append base (x ∷ xs) ys =
    let p = base ^ length xs in
    rw (value-append base xs ys, pow_step base (length xs))
      (omega
        (arith, mul-add base (value base xs) (p * value base ys), mul_assoc base p (value base ys)))

pub big-reverse_aux :
    (base : ℕ) (xs ys : List ℕ) → big base 0 (reverse_aux xs ys) ≡ big base (value base xs) ys
unfolding value
big-reverse_aux base [] ys = refl
big-reverse_aux base (x ∷ xs) ys = big-reverse_aux base xs (x ∷ ys) ∙ step
  where
    step : big base (value base xs) (x ∷ ys) ≡ big base (x + base * value base xs) ys
    step = unfold big in ap (λ n. big base n ys) (omega arith)

pub big-reverse : (base : ℕ) (xs : List ℕ) → big base 0 (reverse xs) ≡ value base xs
big-reverse base xs = big-reverse_aux base xs [] ∙ (unfold big in refl)

pub value-reverse : (base : ℕ) (xs : List ℕ) → value base (reverse xs) ≡ big base 0 xs
value-reverse base xs = sym (big-reverse base (reverse xs)) ∙ ap (big base 0) (reverse-reverse xs)

pub value-nil : (base : ℕ) → value base [] ≡ 0
value-nil base = unfold value in refl

-- A number whose highest digit is not zero is not zero.
pub value-pos :
    (base : ℕ) (x : ℕ) (xs : List ℕ) → 1 < base → NoTopZero (x ∷ xs) → 0 < value base (x ∷ xs)
unfolding value
value-pos base x [] big_base top = omega arith
value-pos base x (y ∷ xs) big_base top =
    omega (arith, mul-le-mul_left base (value-pos base y xs big_base top))

digit-injective : (base x y u v : ℕ) → x < base → y < base → x + base * u ≡ y + base * v → x ≡ y
digit-injective base x y u v p q e =
    sym (mod-eq_of_lt p)
    ∙ sym (add-mul-mod_self_left x base u)
    ∙ ap (λ n. n % base) e
    ∙ add-mul-mod_self_left y base v
    ∙ mod-eq_of_lt q

rest-injective : (base u v : ℕ) → 1 < base → base * u ≡ base * v → u ≡ v
rest-injective base u v b e =
    sym (mul-div_cancel_left u (omega arith))
    ∙ ap (λ n. n / base) e
    ∙ mul-div_cancel_left v (omega arith)

NoTopZero-tail : (x : ℕ) (xs : List ℕ) → NoTopZero (x ∷ xs) → NoTopZero xs
NoTopZero-tail x [] h = tt
NoTopZero-tail x (y ∷ xs) h = h

empty-ne :
    (base x : ℕ) (xs : List ℕ)
    → 1 < base
    → NoTopZero (x ∷ xs)
    → value base [] ≡ value base (x ∷ xs)
    → ⊥
empty-ne base x xs b top e = omega (arith, value-pos base x xs b top, value-nil base)

-- Two numbers with one value have the same digits, where neither begins with a zero.
pub value-injective :
    (base : ℕ) (xs ys : List ℕ)
    → 1 < base
    → AreDigits base xs
    → AreDigits base ys
    → NoTopZero xs
    → NoTopZero ys
    → value base xs ≡ value base ys
    → xs ≡ ys
value-injective base [] [] b p q s t e = refl
value-injective base [] (y ∷ ys) b p q s t e = absurd (empty-ne base y ys b t e)
value-injective base (x ∷ xs) [] b p q s t e = absurd (empty-ne base x xs b s (sym e))
value-injective base (x ∷ xs) (y ∷ ys) b (p, ps) (q, qs) s t e =
    let same : x ≡ y =
      digit-injective base x y (value base xs) (value base ys) p q (unfold value in e) in
    let rest : value base xs ≡ value base ys =
      rest-injective base (value base xs) (value base ys) b (unfold value in omega arith) in
    cc (
      same,
      value-injective base xs ys b ps qs (NoTopZero-tail x xs s) (NoTopZero-tail y ys t) rest,
    )
