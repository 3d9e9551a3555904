-- ===== src/Crypto/Primitives.antt =====
-- The building blocks of lib/crypto/utils.cpp: results, key derivation, and counters.
pub mod Laws
use mtxclient.Shared.{
  ℕ, zero, suc, ◌%◌, ◌^◌, ◌&&◌, Option, none, some, List, [], ◌∷◌, length, take, get_or, set,
  if◌then◌else◌, ◌==◌, ltb, leb,
}
use mtxclient.Libraries.Openssl.{OpensslLibrary}

-- What a call returns, or the exception that it throws. `undefined_behavior` is where the code reads
-- behind a buffer, or a length that a failed call of OpenSSL has not set.
pub data Result {ℓ} (A : Type ℓ) : Type ℓ where
  ok : A → Result A
  invalid_argument : Result A
  runtime_error : Result A
  out_of_range : Result A
  undefined_behavior : Result A

infixl 5 ◌>>=◌
abbrev pub ◌>>=◌ {ℓ κ} : {A : Type ℓ} {B : Type κ} → Result A → (A → Result B) → Result B
ok a >>= f = f a
invalid_argument >>= f = invalid_argument
runtime_error >>= f = runtime_error
out_of_range >>= f = out_of_range
undefined_behavior >>= f = undefined_behavior

-- The elements from position `n` on.
abbrev pub drop : ℕ → List ℕ → List ℕ
drop zero xs = xs
drop (suc n) [] = []
drop (suc n) (x ∷ xs) = drop n xs

-- `HkdfKeys`
pub record HkdfKeys : Type 0 where
  pub aes : List ℕ
  pub mac : List ℕ

-- `compatible_iv`: bit 63 is cleared, the highest bit of byte 8.
abbrev pub compatible_iv : List ℕ → List ℕ
compatible_iv iv = set iv 8 (get_or iv 8 0 % 2 ^ 7)

-- A buffer whose size is passed on as `(int)size`: OpenSSL reads as many bytes as that says, and a call
-- with a negative size fails.
unfoldable pub int_sized {ℓ} : {A : Type ℓ} → Result A → List ℕ → (List ℕ → Result A) → Result A
int_sized negative bytes next =
    let size = length bytes % 2 ^ 32 in
    if ltb size (2 ^ 31) then next (take size bytes) else negative

-- The errors of the calls of a cipher are passed over, with an output length that nothing has set.
abbrev pub output_of : Option (List ℕ) → Result (List ℕ)
output_of none = undefined_behavior
output_of (some out) = ok out

-- The body of `AES_CTR_256_Encrypt` and `AES_CTR_256_Decrypt`: the cipher reads 32 bytes of the key and 16 of
-- the iv.
unfoldable pub run_ctr :
    (List ℕ → List ℕ → List ℕ → Option (List ℕ)) → List ℕ → List ℕ → List ℕ → Result (List ℕ)
run_ctr cipher text key iv =
    if leb 32 (length key) && leb 16 (length iv)
    then int_sized undefined_behavior text
        (λ read. output_of (cipher (take 32 key) (take 16 iv) read))
    else undefined_behavior

module _ (ssl : OpensslLibrary) where
  -- The end of `HKDF_SHA256`: the first half of the 64 bytes is the key for AES, the second the one
  -- for the MAC.
  abbrev pub split_keys : Option (List ℕ) → Result HkdfKeys
  split_keys none = runtime_error
  split_keys (some buf) =
      if length buf == 64
      then ok (record { aes = take 32 buf; mac = drop 32 buf })
      else runtime_error

  unfoldable pub hkdf_sha256 : List ℕ → List ℕ → List ℕ → Result HkdfKeys
  hkdf_sha256 key salt info = int_sized runtime_error salt λ salt.
      int_sized runtime_error key
        λ key. int_sized runtime_error info λ info. split_keys (ssl.hkdf key salt info)

  -- `sha256`
  unfoldable pub sha256 : List ℕ → Result (List ℕ)
  sha256 message = elim (ssl.digest message) [ none ↦ runtime_error | some hash ↦ ok hash ]

  -- `HMAC_SHA256`
  abbrev pub hmac_sha256 : List ℕ → List ℕ → List ℕ
  hmac_sha256 hmac_key message = ssl.hmac hmac_key message

  abbrev pub aes_ctr_256_encrypt : List ℕ → List ℕ → List ℕ → Result (List ℕ)
  aes_ctr_256_encrypt plaintext key iv = run_ctr ssl.ctr_encrypt plaintext key iv

  abbrev pub aes_ctr_256_decrypt : List ℕ → List ℕ → List ℕ → Result (List ℕ)
  aes_ctr_256_decrypt ciphertext key iv = run_ctr ssl.ctr_decrypt ciphertext key iv
