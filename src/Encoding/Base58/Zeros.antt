-- ===== src/Encoding/Base58/Zeros.antt =====
-- The zeros at the front of a number, as digits and as letters.
use mathlib.Core.List.{reverse_aux}
use mtxclient.Shared.{
  ℕ, zero, suc, ◌+◌, ◌<◌, ◌≡◌, ◌∙◌, refl, sym, ap, Bool-cases, inl, inr, false, List, [], ◌∷◌, ◌++◌,
  All, arith, ◌==◌, ==_iff, get_or, map, replicate, reverse, if◌then◌else◌,
}
use mtxclient.Encoding.Alphabet.{base58_alphabet, base58_to_int, base58-IsInverse}
use mtxclient.Encoding.Base58.{leading}
use mtxclient.Encoding.Base58.Digits.{big, AreDigits, NoTopZero}

abbrev pub letter : ℕ → ℕ
letter d = get_or base58_alphabet d 0

-- What is left behind the zeros at the front.
unfoldable pub strip : List ℕ → List ℕ
strip [] = []
strip (x ∷ xs) = let rest = strip xs in if x == 0 then rest else x ∷ xs

abbrev pub HeadPos : List ℕ → Type 0
HeadPos [] = Unit
HeadPos (x ∷ xs) = 0 < x

pub strip-HeadPos : (xs : List ℕ) → HeadPos (strip xs)
unfolding strip
strip-HeadPos [] = tt
strip-HeadPos (x ∷ xs) = elim (Bool-cases (x == 0)) [
  | inl none_left ↦ rw none_left (strip-HeadPos xs)
  | inr positive ↦ rw positive (ground arith)
]

pub leading-strip : (xs : List ℕ) → replicate (leading 0 xs) 0 ++ strip xs ≡ xs
unfolding leading strip
leading-strip [] = refl
leading-strip (x ∷ xs) = elim (Bool-cases (x == 0)) [
  | inl none_left ↦ rw none_left (cc ((==_iff x 0).0 none_left, leading-strip xs))
  | inr positive ↦ rw positive refl
]

pub big-strip : (base : ℕ) (xs : List ℕ) → big base 0 (strip xs) ≡ big base 0 xs
unfolding strip big
big-strip base [] = refl
big-strip base (x ∷ xs) = elim (Bool-cases (x == 0)) [
  | inl none_left ↦
      rw none_left
        (big-strip base xs ∙ ap (λ n. big base n xs) (omega (arith, (==_iff x 0).0 none_left)))
  | inr positive ↦ rw positive refl
]

pub All-strip : (P : ℕ → Type 0) (xs : List ℕ) → All P xs → All P (strip xs)
unfolding strip
All-strip P [] h = tt
All-strip P (x ∷ xs) (p, h) = elim (Bool-cases (x == 0)) [
  | inl none_left ↦ rw none_left (All-strip P xs h)
  | inr positive ↦ rw positive (p, h)
]

pub All-reverse_aux :
    (P : ℕ → Type 0) (xs ys : List ℕ) → All P xs → All P ys → All P (reverse_aux xs ys)
All-reverse_aux P [] ys h k = k
All-reverse_aux P (x ∷ xs) ys (p, h) k = All-reverse_aux P xs (x ∷ ys) h (p, k)

NoTopZero-reverse_aux :
    (xs : List ℕ) (y : ℕ) (ys : List ℕ) → NoTopZero (y ∷ ys) → NoTopZero (reverse_aux xs (y ∷ ys))
NoTopZero-reverse_aux [] y ys h = h
NoTopZero-reverse_aux (x ∷ xs) y ys h = NoTopZero-reverse_aux xs x (y ∷ ys) h

pub NoTopZero-reverse : (xs : List ℕ) → HeadPos xs → NoTopZero (reverse xs)
NoTopZero-reverse [] h = tt
NoTopZero-reverse (x ∷ xs) h = NoTopZero-reverse_aux xs x [] h

leading-pos : (x : ℕ) (xs : List ℕ) → 0 < x → leading 0 (x ∷ xs) ≡ 0
unfolding leading
leading-pos x xs h = ground arith

leading-reverse_aux :
    (x : ℕ) (xs ys : List ℕ) → NoTopZero (x ∷ xs) → leading 0 (reverse_aux (x ∷ xs) ys) ≡ 0
leading-reverse_aux x [] ys top = leading-pos x ys top
leading-reverse_aux x (y ∷ xs) ys top = leading-reverse_aux y xs (x ∷ ys) top

pub leading-reverse : (xs : List ℕ) → NoTopZero xs → leading 0 (reverse xs) ≡ 0
leading-reverse [] top = unfold leading in refl
leading-reverse (x ∷ xs) top = leading-reverse_aux x xs [] top

pub leading-append : (n x : ℕ) (xs : List ℕ) → leading x (replicate n x ++ xs) ≡ n + leading x xs
unfolding leading
leading-append zero x xs = omega arith
leading-append (suc n) x xs = rw ((==_iff x x).1 refl) (omega (arith, leading-append n x xs))

letter_other : (x : ℕ) → x < 58 → (x == 0) ≡ false → (letter x == b'1') ≡ false
letter_other x small positive = elim (Bool-cases (letter x == b'1')) [
  | inl one ↦
      let digit : x ≡ 0 =
        sym (base58-IsInverse.back x small)
        ∙ ap (λ b. get_or base58_to_int b 0xff) ((==_iff (letter x) b'1').0 one)
        ∙ base58-IsInverse.back 0 (omega arith) in
      cc (sym positive ∙ (==_iff x 0).1 digit)
  | inr differs ↦ differs
]

letter-eq : (x : ℕ) → x < 58 → (letter x == b'1') ≡ (x == 0)
letter-eq x small = elim (Bool-cases (x == 0)) [
  | inl is_zero ↦ rw ((==_iff x 0).0 is_zero) refl
  | inr positive ↦ rw positive (letter_other x small positive)
]

-- The letter 1 stands for the digit 0 alone.
pub leading-letters : (xs : List ℕ) → AreDigits 58 xs → leading b'1' (map letter xs) ≡ leading 0 xs
unfolding leading
leading-letters [] h = refl
leading-letters (x ∷ xs) (small, h) = rw (letter-eq x small, leading-letters xs h) refl

pub letters-replicate :
    (n : ℕ) (xs : List ℕ) → map letter (replicate n 0 ++ xs) ≡ replicate n b'1' ++ map letter xs
letters-replicate zero xs = refl
letters-replicate (suc n) xs = ap (λ t. b'1' ∷ t) (letters-replicate n xs)

pub big-replicate : (base n : ℕ) (xs : List ℕ) → big base 0 (replicate n 0 ++ xs) ≡ big base 0 xs
unfolding big
big-replicate base zero xs = refl
big-replicate base (suc n) xs =
    ap (λ k. big base k (replicate n 0 ++ xs)) (omega arith) ∙ big-replicate base n xs
