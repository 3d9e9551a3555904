-- ===== src/Crypto/Secrets/Roundtrip.antt =====
-- Secrets that are encrypted and decrypted with one key.
use mtxclient.Shared.{
  ℕ, zero, suc, ◌≤◌, true, ◌%◌, ◌^◌, ◌<◌, ◌≡◌, ◌≢◌, ◌∙◌, refl, ap, Bool-cases, inl, inr, List, [],
  ◌∷◌, arith, length, set, get_or, AreBytes, bytes_eq, bytes_eq_iff, if◌then◌else◌,
}
use mtxclient.Libraries.Openssl.{OpensslLibrary, OpensslLaws}
use mtxclient.Encoding.Base64.{base642bin}
use mtxclient.Encoding.Base64.Roundtrip.{base642bin-bin2base64}
use mtxclient.Crypto.Primitives.{
  Result, ok, ◌>>=◌, HkdfKeys, hkdf_sha256, hmac_sha256, compatible_iv, aes_ctr_256_decrypt,
}
use mtxclient.Crypto.Primitives.Laws.{run_ctr_lem, keys_of}
use mtxclient.Crypto.Secrets.{EncryptedData, decrypt, encrypt, zeros}

pub length-set : (xs : List ℕ) (i v : ℕ) → length (set xs i v) ≡ length xs
length-set [] i v = refl
length-set (x ∷ xs) zero v = refl
length-set (x ∷ xs) (suc i) v = ap suc (length-set xs i v)

pub set-AreBytes : (xs : List ℕ) (i v : ℕ) → v < 256 → AreBytes xs → AreBytes (set xs i v)
set-AreBytes [] i v small h = tt
set-AreBytes (x ∷ xs) zero v small (p, h) = (small, h)
set-AreBytes (x ∷ xs) (suc i) v small (p, h) = (p, set-AreBytes xs i v small h)

pub bytes_eq_refl : (s : List ℕ) → bytes_eq s s ≡ true
bytes_eq_refl s = (bytes_eq_iff s s).1 refl

compatible_iv-AreBytes : (iv : List ℕ) → AreBytes iv → AreBytes (compatible_iv iv)
compatible_iv-AreBytes iv h = set-AreBytes iv 8 (get_or iv 8 0 % 2 ^ 7) (omega arith) h

module _ (ssl : OpensslLibrary) (laws : OpensslLaws ssl) where
  -- Decrypting an encrypted secret with the same key and name gives the secret, where OpenSSL keeps its
  -- laws, the random buffer is 16 bytes, the secret is bytes with a size that an `int` holds, the key is
  -- not empty, and the name is within the 1024 bytes of an info.
  pub decrypt-encrypt :
      (random secret decryption_key key_name : List ℕ)
      → length random ≡ 16
      → AreBytes random
      → AreBytes secret
      → length secret < 2 ^ 31
      → 0 < length decryption_key
      → length decryption_key < 2 ^ 31
      → length key_name ≤ 1024
      → (encrypt ssl random secret decryption_key key_name
          >>= (λ encrypted. decrypt ssl encrypted decryption_key key_name))
        ≡ ok secret
  unfolding encrypt decrypt
  decrypt-encrypt random secret decryption_key key_name n h k small some_key small_key short =
      let (keys, e, m) =
        keys_of ssl laws decryption_key (zeros 32) key_name some_key small_key (omega arith)
          short in
      let iv = compatible_iv random in
      let iv_size = length-set random 8 (get_or random 8 0 % 2 ^ 7) ∙ n in
      let (cipher, encrypted, size, bytes, decrypted) =
        laws.ctr_inverse keys.aes iv secret m iv_size small k in
      rw
        (
          e,
          run_ctr_lem ssl.ctr_encrypt secret keys.aes iv cipher m iv_size small encrypted,
          base642bin-bin2base64 cipher bytes,
          base642bin-bin2base64 iv (compatible_iv-AreBytes random h),
          base642bin-bin2base64 (ssl.hmac keys.mac cipher) (laws.hmac_bytes keys.mac cipher),
          bytes_eq_refl (ssl.hmac keys.mac cipher),
        )
        (run_ctr_lem ssl.ctr_decrypt cipher keys.aes iv secret m iv_size
          (omega (arith, size, small)) decrypted)

-- The body of `decrypt` after the keys are derived.
abbrev check_mac : OpensslLibrary → EncryptedData → HkdfKeys → Result (List ℕ)
check_mac ssl encrypted keys =
    if bytes_eq (ssl.hmac keys.mac (base642bin encrypted.ciphertext)) (base642bin encrypted.mac)
    then aes_ctr_256_decrypt ssl (base642bin encrypted.ciphertext) keys.aes
        (base642bin encrypted.iv)
    else ok []

check_mac_passed :
    (ssl : OpensslLibrary) (encrypted : EncryptedData) (keys : HkdfKeys) (secret : List ℕ)
    → check_mac ssl encrypted keys ≡ ok secret
    → secret ≢ []
    → (ssl.hmac keys.mac (base642bin encrypted.ciphertext) ≡ base642bin encrypted.mac)
      × (aes_ctr_256_decrypt ssl
            (base642bin encrypted.ciphertext)
            keys.aes
            (base642bin encrypted.iv)
          ≡ ok secret)
check_mac_passed ssl encrypted keys secret done nonempty =
    let mac = ssl.hmac keys.mac (base642bin encrypted.ciphertext) in
    elim (Bool-cases (bytes_eq mac (base642bin encrypted.mac))) [
      | inl same ↦ ((bytes_eq_iff mac (base642bin encrypted.mac)).0 same, rw same at done)
      | inr other ↦ absurd (nonempty (cc (rw other at done)))
    ]

module _ (ssl : OpensslLibrary) where
  -- A text that is not empty comes from data whose MAC was checked: the keys are derived from the key
  -- and the name, the MAC of the ciphertext is the one of the data, and the text is its decryption.
  pub decrypt-authentic :
      (encrypted : EncryptedData) (decryption_key key_name secret : List ℕ)
      → decrypt ssl encrypted decryption_key key_name ≡ ok secret
      → secret ≢ []
      → (keys : HkdfKeys) × (hkdf_sha256 ssl decryption_key (zeros 32) key_name ≡ ok keys)
        × (hmac_sha256 ssl keys.mac (base642bin encrypted.ciphertext) ≡ base642bin encrypted.mac)
        × (aes_ctr_256_decrypt ssl
              (base642bin encrypted.ciphertext)
              keys.aes
              (base642bin encrypted.iv)
            ≡ ok secret)
  unfolding decrypt
  decrypt-authentic encrypted decryption_key key_name secret done nonempty =
      derived (hkdf_sha256 ssl decryption_key (zeros 32) key_name) done
    where
      derived :
          (keys_result : Result HkdfKeys)
          → (keys_result >>= check_mac ssl encrypted) ≡ ok secret
          → (keys : HkdfKeys) × (keys_result ≡ ok keys)
            × (ssl.hmac keys.mac (base642bin encrypted.ciphertext) ≡ base642bin encrypted.mac)
            × (aes_ctr_256_decrypt ssl
                  (base642bin encrypted.ciphertext)
                  keys.aes
                  (base642bin encrypted.iv)
                ≡ ok secret)
      derived (ok keys) e =
          let (mac, text) = check_mac_passed ssl encrypted keys secret e nonempty in
          (keys, refl, mac, text)
      derived _ e = cc
