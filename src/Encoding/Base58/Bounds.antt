-- ===== src/Encoding/Base58/Bounds.antt =====
-- The digits that `encode_base58` makes room for are enough.
use native.Mathlib.Omega.{pow_step}
use native.Mathlib.Nat.{pow-zero, mul-le-mul, mul_assoc, zero-add}
use mathlib.Core.Path.{subst}
use mtxclient.Shared.{
  ℕ, zero, suc, ◌+◌, ◌*◌, ◌/◌, ◌%◌, ◌^◌, ◌<◌, ◌≤◌, ◌≡◌, ◌∙◌, refl, sym, ap, Bool, true, arith, leb,
  leb→le, holds_below, holds_below-at,
}

suc-add : (a b : ℕ) → suc a + b ≡ suc (a + b)
suc-add a b = omega arith

pub pow-add : (c a b : ℕ) → c ^ (a + b) ≡ c ^ a * c ^ b
pow-add c zero b = rw (zero-add b, pow-zero c) (omega arith)
pow-add c (suc a) b =
    ap (λ n. c ^ n) (suc-add a b)
    ∙ pow_step c (a + b)
    ∙ ap (λ n. c * n) (pow-add c a b)
    ∙ sym (mul_assoc c (c ^ a) (c ^ b))
    ∙ ap (λ n. n * c ^ b) (sym (pow_step c a))

-- The room for the digits of `n` bytes.
abbrev pub room_for : ℕ → ℕ
room_for n = n * 138 / 100 + 1

abbrev is_enough : ℕ → Bool
is_enough n = leb (256 ^ n) (58 ^ room_for n)

below_100 : holds_below is_enough 100 ≡ true
unfolding holds_below
below_100 = refl

hundred : leb (256 ^ 100) (58 ^ 138) ≡ true
hundred = refl

more_room : (n : ℕ) → 256 ^ n ≤ 58 ^ room_for n → 256 ^ (100 + n) ≤ 58 ^ room_for (100 + n)
more_room n h =
    subst (λ k. 256 ^ (100 + n) ≤ 58 ^ k) (room n)
      (subst (λ k. k ≤ 58 ^ (138 + room_for n)) (sym (pow-add 256 100 n))
        (subst (λ k. 256 ^ 100 * 256 ^ n ≤ k) (sym (pow-add 58 138 (room_for n)))
          (mul-le-mul (leb→le (256 ^ 100) (58 ^ 138) hundred) h)))
  where
    room : (n : ℕ) → 138 + room_for n ≡ room_for (100 + n)
    room n = omega arith

enough : (q r : ℕ) → r < 100 → 256 ^ (100 * q + r) ≤ 58 ^ room_for (100 * q + r)
enough zero r small =
    subst (λ n. 256 ^ n ≤ 58 ^ room_for n) (first r)
      (leb→le (256 ^ r) (58 ^ room_for r) (holds_below-at is_enough 100 r small below_100))
  where
    first : (r : ℕ) → r ≡ 100 * 0 + r
    first r = omega arith
enough (suc q) r small =
    subst (λ n. 256 ^ n ≤ 58 ^ room_for n) (next q r) (more_room (100 * q + r) (enough q r small))
  where
    next : (q r : ℕ) → 100 + (100 * q + r) ≡ 100 * suc q + r
    next q r = omega arith

pub pow-room_for : (n : ℕ) → 256 ^ n ≤ 58 ^ room_for n
pow-room_for n =
    subst (λ k. 256 ^ k ≤ 58 ^ room_for k) (parts n) (enough (n / 100) (n % 100) (omega arith))
  where
    parts : (n : ℕ) → 100 * (n / 100) + n % 100 ≡ n
    parts n = omega arith
