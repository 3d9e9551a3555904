-- ===== src/Crypto/Files.antt =====
-- `encrypt_file` and `decrypt_file` of lib/crypto/utils.cpp, with `JWK` and `EncryptedFile` of
-- include/mtx/common.hpp. What `create_buffer` draws at random is an argument.
pub mod Roundtrip
use mtxclient.Shared.{
  ℕ, zero, suc, ◌%◌, ◌^◌, ◌+◌, Bool, true, Option, none, some, List, [], ◌∷◌, String, set, get_or,
  if◌then◌else◌, str_eq, bytes_eq, Map, lookup, not,
}
use mtxclient.Libraries.Openssl.{OpensslLibrary}
use mtxclient.Encoding.Base64.{
  base642bin_unpadded, bin2base64_unpadded, base642bin_urlsafe_unpadded,
  bin2base64_urlsafe_unpadded,
}
use mtxclient.Crypto.Primitives.{
  Result, ok, invalid_argument, out_of_range, ◌>>=◌, sha256, aes_ctr_256_encrypt,
  aes_ctr_256_decrypt,
}

pub record Jwk : Type 0 where
  pub kty : String
  pub key_ops : List String
  pub alg : String
  pub k : List ℕ
  pub ext : Bool

pub record EncryptedFile : Type 0 where
  pub url : String
  pub key : Jwk
  pub iv : List ℕ
  pub hashes : Map (List ℕ)
  pub v : String

-- `hashes.at(key)`
unfoldable pub hash_at : String → EncryptedFile → Result (List ℕ)
hash_at key info = elim (lookup key info.hashes) [ none ↦ out_of_range | some hash ↦ ok hash ]

-- The loop `iv[i] = 0` over `n` bytes from position `i` on.
abbrev pub clear_from : ℕ → ℕ → List ℕ → List ℕ
clear_from zero i iv = iv
clear_from (suc n) i iv = clear_from n (i + 1) (set iv i 0)

-- The iv of a file: bit 63 is cleared, and then the whole counter is.
abbrev pub file_iv : List ℕ → List ℕ
file_iv iv = clear_from 8 8 (set iv 8 (get_or iv 8 0 % 2 ^ 7))

module _ (ssl : OpensslLibrary) where
  unfoldable pub decrypt_file : List ℕ → EncryptedFile → Result (List ℕ)
  decrypt_file ciphertext info =
      if not (str_eq info.v "v2")
      then invalid_argument
      else if not (str_eq info.key.kty "oct")
      then invalid_argument
      else if not (str_eq info.key.alg "A256CTR")
      then invalid_argument
      else do
        hash ← sha256 ssl ciphertext
        expected ← hash_at "sha256" info
        if not (bytes_eq (bin2base64_unpadded hash) expected)
            then invalid_argument
            else aes_ctr_256_decrypt ssl ciphertext (base642bin_urlsafe_unpadded info.key.k)
                (base642bin_unpadded info.iv)

  -- The first two arguments are what `create_buffer` returns for the key and for the iv.
  unfoldable pub encrypt_file : List ℕ → List ℕ → List ℕ → Result (List ℕ × EncryptedFile)
  encrypt_file key random_iv plaintext =
      let iv = file_iv random_iv in
      do
        ciphertext ← aes_ctr_256_encrypt ssl plaintext key iv
        hash ← sha256 ssl ciphertext
        ok (
          ciphertext,
          record {
            url = "";
            key = record {
              kty = "oct";
              key_ops = "encrypt" ∷ "decrypt" ∷ [];
              alg = "A256CTR";
              k = bin2base64_urlsafe_unpadded key;
              ext = true;
            };
            iv = bin2base64_unpadded iv;
            hashes = ("sha256", bin2base64_unpadded hash) ∷ [];
            v = "v2";
          },
        )
