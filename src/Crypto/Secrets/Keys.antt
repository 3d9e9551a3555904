-- ===== src/Crypto/Secrets/Keys.antt =====
-- What it takes for a passphrase to give a key.
use mtxclient.Shared.{
  ℕ, ◌/◌, ◌≡◌, ◌∙◌, ap, refl, Bool-cases, inl, inr, Option, none, some, List, [], str_eq, eq_iff,
  bytes_eq, bytes_eq_iff, if◌then◌else◌,
}
use mtxclient.Libraries.Openssl.{OpensslLibrary}
use mtxclient.Encoding.Base64.{base642bin}
use mtxclient.Crypto.Primitives.{
  Result, ok, ◌>>=◌, HkdfKeys, hkdf_sha256, hmac_sha256, aes_ctr_256_encrypt,
}
use mtxclient.Crypto.Secrets.{
  Pbkdf2, KeyDescription, zeros, verify_key, derive_key, key_from_passphrase,
}

module _ (ssl : OpensslLibrary) where
  -- The MAC of 32 encrypted zeros under the keys, as `verify_key` computes it.
  abbrev pub check_value : KeyDescription → HkdfKeys → Result (List ℕ)
  check_value parameters keys = do
    encrypted ← aes_ctr_256_encrypt ssl (zeros 32) keys.aes (base642bin parameters.iv)
    ok (hmac_sha256 ssl keys.mac encrypted)

  abbrev compare_mac : List ℕ → KeyDescription → HkdfKeys → Result (Option (List ℕ))
  compare_mac decryption_key parameters keys = do
    encrypted ← aes_ctr_256_encrypt ssl (zeros 32) keys.aes (base642bin parameters.iv)
    if bytes_eq (hmac_sha256 ssl keys.mac encrypted) (base642bin parameters.mac)
        then ok (some decryption_key)
        else ok none

  compare_mac_passed :
      (decryption_key key : List ℕ) (parameters : KeyDescription) (keys : HkdfKeys)
      → compare_mac decryption_key parameters keys ≡ ok (some key)
      → (key ≡ decryption_key) × (check_value parameters keys ≡ ok (base642bin parameters.mac))
  compare_mac_passed decryption_key key parameters keys e =
      computed (aes_ctr_256_encrypt ssl (zeros 32) keys.aes (base642bin parameters.iv)) e
    where
      computed :
          (out : Result (List ℕ))
          → (out >>= (λ encrypted.
              if bytes_eq (ssl.hmac keys.mac encrypted) (base642bin parameters.mac)
              then ok (some decryption_key)
              else ok none))
            ≡ ok (some key)
          → (key ≡ decryption_key)
            × ((out >>= (λ encrypted. ok (ssl.hmac keys.mac encrypted)))
                ≡ ok (base642bin parameters.mac))
      computed (ok encrypted) e =
          let mac = ssl.hmac keys.mac encrypted in
          elim (Bool-cases (bytes_eq mac (base642bin parameters.mac))) [
            | inl same ↦
                (cc (rw same at e), ap ok ((bytes_eq_iff mac (base642bin parameters.mac)).0 same))
            | inr other ↦ cc (rw other at e)
          ]
      computed _ e = cc

  pub verify_key_passed :
      (decryption_key key : List ℕ) (parameters : KeyDescription)
      → verify_key ssl decryption_key parameters ≡ ok (some key)
      → (key ≡ decryption_key)
        × ((keys : HkdfKeys) × (hkdf_sha256 ssl decryption_key (zeros 32) [] ≡ ok keys)
            × (check_value parameters keys ≡ ok (base642bin parameters.mac)))
  unfolding verify_key
  verify_key_passed decryption_key key parameters e =
      derived (hkdf_sha256 ssl decryption_key (zeros 32) []) e
    where
      derived :
          (test_keys : Result HkdfKeys)
          → (test_keys >>= compare_mac decryption_key parameters) ≡ ok (some key)
          → (key ≡ decryption_key)
            × ((keys : HkdfKeys) × (test_keys ≡ ok keys)
                × (check_value parameters keys ≡ ok (base642bin parameters.mac)))
      derived (ok keys) e =
          let (same, mac) = compare_mac_passed decryption_key key parameters keys e in
          (same, (keys, refl, mac))
      derived _ e = cc

  -- A key that a passphrase gives is the one that PBKDF2 derives with the salt, the iterations and
  -- the size of the description, whose algorithm is `m.pbkdf2`, and the MAC that it makes of 32
  -- encrypted zeros is the one of the description.
  key_from_passphrase-checked :
      (password key : List ℕ) (parameters : KeyDescription)
      → key_from_passphrase ssl password parameters ≡ ok (some key)
      → (p : Pbkdf2) × (parameters.passphrase ≡ some p)
        × (p.algorithm ≡ "m.pbkdf2")
        × (key ≡ ssl.pbkdf2 password p.salt p.iterations (p.bits / 8))
        × ((keys : HkdfKeys) × (hkdf_sha256 ssl key (zeros 32) [] ≡ ok keys)
            × (check_value parameters keys ≡ ok (base642bin parameters.mac)))
  unfolding key_from_passphrase derive_key
  key_from_passphrase-checked password key parameters e = derived parameters.passphrase e
    where
      derived :
          (passphrase : Option Pbkdf2)
          → derive_key ssl password parameters passphrase ≡ ok (some key)
          → (p : Pbkdf2) × (passphrase ≡ some p)
            × (p.algorithm ≡ "m.pbkdf2")
            × (key ≡ ssl.pbkdf2 password p.salt p.iterations (p.bits / 8))
            × ((keys : HkdfKeys) × (hkdf_sha256 ssl key (zeros 32) [] ≡ ok keys)
                × (check_value parameters keys ≡ ok (base642bin parameters.mac)))
      derived none e = cc
      derived (some p) e = elim (Bool-cases (str_eq p.algorithm "m.pbkdf2")) [
        | inl known ↦
            let (same, (keys, derives, mac)) =
              verify_key_passed (ssl.pbkdf2 password p.salt p.iterations (p.bits / 8)) key
                parameters (rw known at e) in
            (
              p,
              refl,
              (eq_iff p.algorithm "m.pbkdf2").0 known,
              same,
              (keys, ap (λ k. hkdf_sha256 ssl k (zeros 32) []) same ∙ derives, mac),
            )
        | inr other ↦ cc (rw other at e)
      ]
