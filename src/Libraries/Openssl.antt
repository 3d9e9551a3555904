-- ===== src/Libraries/Openssl.antt =====
-- OpenSSL, as far as the modelled code calls it. Buffers and strings are lists of bytes.
use mtxclient.Shared.{ℕ, ◌<◌, ◌≤◌, ◌^◌, List, Option, some, ◌≡◌, length, AreBytes}

pub record OpensslLibrary : Type 0 where
  -- `EVP_PKEY_derive` at EVP_PKEY_HKDF with SHA-256 into 64 bytes, of a key, a salt and an info;
  -- `none` where a call fails
  pub hkdf : List ℕ → List ℕ → List ℕ → Option (List ℕ)
  -- `HMAC` with SHA-256, of a key and the data
  pub hmac : List ℕ → List ℕ → List ℕ
  -- `EVP_Digest…` with SHA-256; `none` where a call fails
  pub digest : List ℕ → Option (List ℕ)
  -- `PKCS5_PBKDF2_HMAC` with SHA-512, of a password, a salt, the iterations and the length
  pub pbkdf2 : List ℕ → List ℕ → ℕ → ℕ → List ℕ
  -- `EVP_Encrypt…` and `EVP_Decrypt…` at EVP_aes_256_ctr, of a key of 32 bytes, an iv of 16 and the data;
  -- `none` where a call fails
  pub ctr_encrypt : List ℕ → List ℕ → List ℕ → Option (List ℕ)
  pub ctr_decrypt : List ℕ → List ℕ → List ℕ → Option (List ℕ)

-- What the code relies on, from the documentation of OpenSSL. A derivation succeeds with a key that is not
-- empty, sizes that an `int` holds and an info within the documented 1024 bytes, and gives the 64 bytes
-- that are asked for. Results are bytes. A text whose size an `int` holds is encrypted with a key of
-- 32 bytes and an iv of 16 into as many bytes, and decryption with the two gives it back.
pub record OpensslLaws (ssl : OpensslLibrary) : Type 0 where
  pub hkdf_derives :
      (key salt info : List ℕ)
      → 0 < length key
      → length key < 2 ^ 31
      → length salt < 2 ^ 31
      → length info ≤ 1024
      → (buf : List ℕ) × (ssl.hkdf key salt info ≡ some buf) × (length buf ≡ 64)
  pub hmac_bytes : (key message : List ℕ) → AreBytes (ssl.hmac key message)
  pub digest_bytes :
      (message : List ℕ) → (hash : List ℕ) × (ssl.digest message ≡ some hash) × AreBytes hash
  pub ctr_inverse :
      (key iv text : List ℕ)
      → length key ≡ 32
      → length iv ≡ 16
      → length text < 2 ^ 31
      → AreBytes text
      → (cipher : List ℕ) × (ssl.ctr_encrypt key iv text ≡ some cipher)
        × (length cipher ≡ length text)
        × AreBytes cipher
        × (ssl.ctr_decrypt key iv cipher ≡ some text)
