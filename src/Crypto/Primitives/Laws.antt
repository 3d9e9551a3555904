-- ===== src/Crypto/Primitives/Laws.antt =====
-- What the building blocks return where OpenSSL keeps its laws.
use mtxclient.Shared.{
  ℕ, zero, suc, ◌≤◌, ◌<◌, ◌%◌, ◌^◌, ◌≡◌, refl, ap, Bool, true, false, Option, some, List, [], ◌∷◌,
  arith, length, take, if◌then◌else◌, ltb, leb, ◌&&◌,
}
use mtxclient.Libraries.Openssl.{OpensslLibrary, OpensslLaws}
use mtxclient.Crypto.Primitives.{
  Result, ok, undefined_behavior, HkdfKeys, drop, int_sized, run_ctr, hkdf_sha256,
}

length-take : (n : ℕ) (xs : List ℕ) → n ≤ length xs → length (take n xs) ≡ n
length-take zero xs h = refl
length-take (suc n) [] h = absurd (omega arith)
length-take (suc n) (x ∷ xs) h = ap suc (length-take n xs (omega arith))

take-length : (xs : List ℕ) → take (length xs) xs ≡ xs
take-length [] = refl
take-length (x ∷ xs) = ap (λ l. x ∷ l) (take-length xs)

take_all : (n : ℕ) (xs : List ℕ) → length xs ≡ n → take n xs ≡ xs
take_all n xs e = rw (← e) (take-length xs)

-- A size below 2 ^ 31 is passed on as it is.
int_sized_lem {ℓ} :
    {A : Type ℓ} (negative : Result A) (bytes : List ℕ) (next : List ℕ → Result A)
    → length bytes < 2 ^ 31
    → int_sized negative bytes next ≡ next bytes
unfolding int_sized
int_sized_lem negative bytes next small =
    let size : length bytes % 2 ^ 32 ≡ length bytes = omega (arith, small) in
    let fits : ltb (length bytes) (2 ^ 31) ≡ true = ground (arith, small) in
    rw (size, fits, take-length bytes) refl

pub run_ctr_lem :
    (cipher : List ℕ → List ℕ → List ℕ → Option (List ℕ)) (text key iv out : List ℕ)
    → length key ≡ 32
    → length iv ≡ 16
    → length text < 2 ^ 31
    → cipher key iv text ≡ some out
    → run_ctr cipher text key iv ≡ ok out
unfolding run_ctr
run_ctr_lem cipher text key iv out m n small e =
    rw (m, n, int_sized_lem _ text _ small, take_all 32 key m, take_all 16 iv n, e) refl

-- A cipher that returns has a key and an iv that are long enough, and a size that is not negative.
pub run_ctr-sizes :
    (cipher : List ℕ → List ℕ → List ℕ → Option (List ℕ)) (text key iv out : List ℕ)
    → run_ctr cipher text key iv ≡ ok out
    → (32 ≤ length key) × (16 ≤ length iv) × (length text % 2 ^ 32 < 2 ^ 31)
unfolding run_ctr int_sized
run_ctr-sizes cipher text key iv out e =
    guarded (leb 32 (length key)) (leb 16 (length iv)) (ltb (length text % 2 ^ 32) (2 ^ 31)) _ refl
      refl refl e
  where
    guarded :
        (a b c : Bool) (rest : Result (List ℕ))
        → leb 32 (length key) ≡ a
        → leb 16 (length iv) ≡ b
        → ltb (length text % 2 ^ 32) (2 ^ 31) ≡ c
        → (if a && b then (if c then rest else undefined_behavior) else undefined_behavior) ≡ ok out
        → (32 ≤ length key) × (16 ≤ length iv) × (length text % 2 ^ 32 < 2 ^ 31)
    guarded true true true rest p q r e = (ground (arith, p), ground (arith, q), ground (arith, r))
    guarded true true false rest p q r e = cc
    guarded true false c rest p q r e = cc
    guarded false b c rest p q r e = cc

module _ (ssl : OpensslLibrary) (laws : OpensslLaws ssl) where
  -- The keys that are derived, and the length of the first.
  pub keys_of :
      (key salt info : List ℕ)
      → 0 < length key
      → length key < 2 ^ 31
      → length salt < 2 ^ 31
      → length info ≤ 1024
      → (keys : HkdfKeys) × (hkdf_sha256 ssl key salt info ≡ ok keys) × (length keys.aes ≡ 32)
  unfolding hkdf_sha256
  keys_of key salt info some_key small_key small_salt small_info =
      let (buf, e, n) = laws.hkdf_derives key salt info some_key small_key small_salt small_info in
      (
        record { aes = take 32 buf; mac = drop 32 buf },
        rw
            (
              int_sized_lem _ salt _ small_salt,
              int_sized_lem _ key _ small_key,
              int_sized_lem _ info _ (omega (arith, small_info)),
              e,
              n,
            )
            refl,
        length-take 32 buf (omega arith),
      )
