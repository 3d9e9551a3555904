-- ===== src/Crypto/Secrets.antt =====
-- Secret storage in lib/crypto/utils.cpp: keys from passphrases, and secrets under a key. The structs
-- are those of include/mtx/secret_storage.hpp. What `create_buffer` draws at random is an argument.
pub mod Roundtrip
pub mod Keys
use mtxclient.Shared.{
  ℕ, ◌/◌, Option, none, some, List, [], String, replicate, if◌then◌else◌, str_eq, bytes_eq, Map,
}
use mtxclient.Libraries.Openssl.{OpensslLibrary}
use mtxclient.Encoding.Base64.{base642bin, bin2base64}
use mtxclient.Crypto.Primitives.{
  Result, ok, invalid_argument, ◌>>=◌, HkdfKeys, hkdf_sha256, hmac_sha256, aes_ctr_256_encrypt,
  aes_ctr_256_decrypt, compatible_iv,
}

-- `PBKDF2`
pub record Pbkdf2 : Type 0 where
  pub algorithm : String
  pub salt : List ℕ
  pub iterations : ℕ
  pub bits : ℕ

-- `AesHmacSha2KeyDescription`
pub record KeyDescription : Type 0 where
  pub name : String
  pub algorithm : String
  pub passphrase : Option Pbkdf2
  pub iv : List ℕ
  pub mac : List ℕ
  pub signatures : Map (Map String)

-- `AesHmacSha2EncryptedData`
pub record EncryptedData : Type 0 where
  pub iv : List ℕ
  pub ciphertext : List ℕ
  pub mac : List ℕ

-- A buffer of `n` zero bytes.
abbrev pub zeros : ℕ → List ℕ
zeros n = replicate n 0

module _ (ssl : OpensslLibrary) where
  -- The check that ends `key_from_passphrase` and `key_from_recoverykey`: the MAC of 32 encrypted
  -- zeros is the one of the description.
  unfoldable pub verify_key : List ℕ → KeyDescription → Result (Option (List ℕ))
  verify_key decryption_key parameters = do
    test_keys ← hkdf_sha256 ssl decryption_key (zeros 32) []
    encrypted ← aes_ctr_256_encrypt ssl (zeros 32) test_keys.aes (base642bin parameters.iv)
    if bytes_eq (hmac_sha256 ssl test_keys.mac encrypted) (base642bin parameters.mac)
        then ok (some decryption_key)
        else ok none

  unfoldable pub derive_key : List ℕ → KeyDescription → Option Pbkdf2 → Result (Option (List ℕ))
  derive_key password parameters none = invalid_argument
  derive_key password parameters (some passphrase) =
      if str_eq passphrase.algorithm "m.pbkdf2"
      then verify_key
          (ssl.pbkdf2 password passphrase.salt passphrase.iterations (passphrase.bits / 8))
          parameters
      else invalid_argument

  unfoldable pub key_from_passphrase : List ℕ → KeyDescription → Result (Option (List ℕ))
  unfolding derive_key
  key_from_passphrase password parameters = derive_key password parameters parameters.passphrase

  unfoldable pub decrypt : EncryptedData → List ℕ → List ℕ → Result (List ℕ)
  decrypt encrypted decryption_key key_name = do
    keys ← hkdf_sha256 ssl decryption_key (zeros 32) key_name
    if bytes_eq (hmac_sha256 ssl keys.mac (base642bin encrypted.ciphertext))
          (base642bin encrypted.mac)
        then aes_ctr_256_decrypt ssl (base642bin encrypted.ciphertext) keys.aes
            (base642bin encrypted.iv)
        else ok []

  -- The first argument is what `create_buffer(16)` returns.
  unfoldable pub encrypt : List ℕ → List ℕ → List ℕ → List ℕ → Result EncryptedData
  encrypt random secret decryption_key key_name = do
    keys ← hkdf_sha256 ssl decryption_key (zeros 32) key_name
    ciphertext ← aes_ctr_256_encrypt ssl secret keys.aes (compatible_iv random)
    ok (record {
      iv = bin2base64 (compatible_iv random);
      ciphertext = bin2base64 ciphertext;
      mac = bin2base64 (hmac_sha256 ssl keys.mac ciphertext);
    })
