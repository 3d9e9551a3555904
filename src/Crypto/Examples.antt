-- ===== src/Crypto/Examples.antt =====
-- The theorems on secrets and files at small inputs.
use mtxclient.Shared.{
  ℕ, zero, suc, ◌%◌, ◌^◌, ◌<◌, ◌≤◌, length, true, ◌≡◌, ◌≢◌, ◌↔◌, refl, arith, some, List, [], ◌∷◌,
  replicate, codes, AreBytes,
}
use mtxclient.Samples.{sample_ssl, sample_ssl-laws}
use mtxclient.Encoding.Base64.{
  base642bin, bin2base64, bin2base64_unpadded, base642bin_unpadded, base642bin_urlsafe_unpadded,
}
use mtxclient.Encoding.Base64.Roundtrip.{base642bin-bin2base64}
use mtxclient.Crypto.Primitives.{
  ok, ◌>>=◌, HkdfKeys, hkdf_sha256, int_sized, run_ctr, hmac_sha256, sha256, aes_ctr_256_decrypt,
  compatible_iv,
}
use mtxclient.Crypto.Secrets.{
  Pbkdf2, KeyDescription, EncryptedData, zeros, verify_key, derive_key, key_from_passphrase,
  decrypt, encrypt,
}
use mtxclient.Crypto.Secrets.Roundtrip.{decrypt-encrypt, decrypt-authentic}
use mtxclient.Crypto.Files.{EncryptedFile, hash_at, decrypt_file, encrypt_file}
use mtxclient.Crypto.Files.Roundtrip.{decrypt_file_iff, decrypt_file-encrypt_file}

abbrev secret : List ℕ
secret = codes "hi"

abbrev name : List ℕ
name = codes "m.megolm_backup.v1"

abbrev random : List ℕ
random = replicate 16 200

replicate-AreBytes : (n b : ℕ) → b < 256 → AreBytes (replicate n b)
replicate-AreBytes zero b small = tt
replicate-AreBytes (suc n) b small = (small, replicate-AreBytes n b small)

random-AreBytes : AreBytes random
random-AreBytes = replicate-AreBytes 16 200 (omega arith)

zeros-AreBytes : AreBytes (zeros 32)
zeros-AreBytes = replicate-AreBytes 32 0 (omega arith)

secret-AreBytes : AreBytes secret
secret-AreBytes = (omega arith, (omega arith, tt))

decrypt-encrypt_example :
    (encrypt sample_ssl random secret (zeros 32) name
      >>= (λ encrypted. decrypt sample_ssl encrypted (zeros 32) name))
    ≡ ok secret
decrypt-encrypt_example =
    decrypt-encrypt sample_ssl sample_ssl-laws random secret (zeros 32) name refl random-AreBytes
      secret-AreBytes (omega arith) (omega arith) (omega arith) (omega arith)

abbrev stored : EncryptedData
stored = record {
  iv = bin2base64 (compatible_iv random);
  ciphertext = bin2base64 (codes "ij");
  mac = bin2base64 (2 ∷ 7 ∷ []);
}

stored_opens : decrypt sample_ssl stored (zeros 32) name ≡ ok secret
stored_opens = unfold encrypt decrypt hkdf_sha256 int_sized run_ctr in decrypt-encrypt_example

secret_ne_nil : secret ≢ []
secret_ne_nil e = cc

decrypt-authentic_example :
    (keys : HkdfKeys) × (hkdf_sha256 sample_ssl (zeros 32) (zeros 32) name ≡ ok keys)
    × (hmac_sha256 sample_ssl keys.mac (base642bin stored.ciphertext) ≡ base642bin stored.mac)
    × (aes_ctr_256_decrypt sample_ssl (base642bin stored.ciphertext) keys.aes (base642bin stored.iv)
        ≡ ok secret)
decrypt-authentic_example =
    decrypt-authentic sample_ssl stored (zeros 32) name secret stored_opens secret_ne_nil

abbrev pbkdf2 : Pbkdf2
pbkdf2 = record { algorithm = "m.pbkdf2"; salt = codes "salt"; iterations = 500000; bits = 256 }

abbrev derived_key : List ℕ
derived_key = replicate 32 5

abbrev parameters : KeyDescription
parameters = record {
  name = "default";
  algorithm = "m.secret_storage.v1.aes-hmac-sha2";
  passphrase = some pbkdf2;
  iv = bin2base64 random;
  mac = bin2base64 (32 ∷ 7 ∷ []);
  signatures = [];
}

passphrase_fits : key_from_passphrase sample_ssl (codes "pass") parameters ≡ ok (some derived_key)
unfolding key_from_passphrase derive_key verify_key hkdf_sha256 int_sized run_ctr
passphrase_fits =
    rw
      (
        base642bin-bin2base64 random random-AreBytes,
        base642bin-bin2base64 (32 ∷ 7 ∷ []) (omega arith, (omega arith, tt)),
      )
      refl

decrypt_file-encrypt_file_example :
    (encrypt_file sample_ssl (zeros 32) random secret
      >>= (λ file. decrypt_file sample_ssl file.0 file.1))
    ≡ ok secret
decrypt_file-encrypt_file_example =
    decrypt_file-encrypt_file sample_ssl sample_ssl-laws (zeros 32) random secret refl refl
      zeros-AreBytes random-AreBytes secret-AreBytes (omega arith)

abbrev file : EncryptedFile
file = record {
  url = "mxc://example.org/abc";
  key = record { kty = "oct"; key_ops = []; alg = "A256CTR"; k = replicate 43 b'A'; ext = true };
  iv = replicate 22 b'A';
  hashes = ("sha256", codes "Ag") ∷ [];
  v = "v2";
}

decrypt_file_iff_example : (decrypt_file sample_ssl (codes "ij") file ≡ ok secret) ↔ (
    (hash : List ℕ) × (file.v ≡ "v2")
    × (file.key.kty ≡ "oct")
    × (file.key.alg ≡ "A256CTR")
    × (sha256 sample_ssl (codes "ij") ≡ ok hash)
    × (hash_at "sha256" file ≡ ok (bin2base64_unpadded hash))
    × (32 ≤ length (base642bin_urlsafe_unpadded file.key.k))
    × (16 ≤ length (base642bin_unpadded file.iv))
    × (length (codes "ij") % 2 ^ 32 < 2 ^ 31)
    × (aes_ctr_256_decrypt sample_ssl
          (codes "ij")
          (base642bin_urlsafe_unpadded file.key.k)
          (base642bin_unpadded file.iv)
        ≡ ok secret))
decrypt_file_iff_example = decrypt_file_iff sample_ssl (codes "ij") secret file
