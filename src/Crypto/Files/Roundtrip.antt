-- ===== src/Crypto/Files/Roundtrip.antt =====
-- Files that are encrypted and decrypted, and what decryption checks.
use mtxclient.Shared.{
  ℕ, zero, suc, ◌+◌, ◌%◌, ◌^◌, ◌≤◌, ◌<◌, ◌≡◌, ◌↔◌, ◌∙◌, refl, sym, ap, Bool-cases, inl, inr, Bool,
  true, false, some, List, arith, length, set, get_or, AreBytes, bytes_eq, bytes_eq_iff, str_eq,
  eq_iff, if◌then◌else◌, lookup, not,
}
use mtxclient.Libraries.Openssl.{OpensslLibrary, OpensslLaws}
use mtxclient.Encoding.Base64.{
  bin2base64_unpadded, base642bin_unpadded, base642bin_urlsafe_unpadded,
}
use mtxclient.Encoding.Base64.Roundtrip.{base642bin_unpadded-bin2base64_unpadded}
use mtxclient.Crypto.Primitives.{
  Result, ok, invalid_argument, runtime_error, out_of_range, undefined_behavior, ◌>>=◌, sha256,
  aes_ctr_256_decrypt,
}
use mtxclient.Crypto.Primitives.Laws.{run_ctr_lem, run_ctr-sizes}
use mtxclient.Crypto.Secrets.Roundtrip.{length-set, set-AreBytes, bytes_eq_refl}
use mtxclient.Crypto.Files.{EncryptedFile, hash_at, clear_from, file_iv, decrypt_file, encrypt_file}

length-clear_from : (n i : ℕ) (iv : List ℕ) → length (clear_from n i iv) ≡ length iv
length-clear_from zero i iv = refl
length-clear_from (suc n) i iv = length-clear_from n (i + 1) (set iv i 0) ∙ length-set iv i 0

clear_from-AreBytes : (n i : ℕ) (iv : List ℕ) → AreBytes iv → AreBytes (clear_from n i iv)
clear_from-AreBytes zero i iv h = h
clear_from-AreBytes (suc n) i iv h =
    clear_from-AreBytes n (i + 1) (set iv i 0) (set-AreBytes iv i 0 (omega arith) h)

length-file_iv : (iv : List ℕ) → length (file_iv iv) ≡ length iv
length-file_iv iv =
    length-clear_from 8 8 (set iv 8 (get_or iv 8 0 % 2 ^ 7))
    ∙ length-set iv 8 (get_or iv 8 0 % 2 ^ 7)

file_iv-AreBytes : (iv : List ℕ) → AreBytes iv → AreBytes (file_iv iv)
file_iv-AreBytes iv h =
    clear_from-AreBytes 8 8 (set iv 8 (get_or iv 8 0 % 2 ^ 7))
      (set-AreBytes iv 8 (get_or iv 8 0 % 2 ^ 7) (omega arith) h)

sha256-some :
    (ssl : OpensslLibrary) (text hash : List ℕ)
    → ssl.digest text ≡ some hash
    → sha256 ssl text ≡ ok hash
unfolding sha256
sha256-some ssl text hash e = ground arith

-- The three guards of `decrypt_file`.
guards_passed :
    (a b c : Bool) (rest : Result (List ℕ)) (text : List ℕ)
    → (if not a
        then invalid_argument
        else if not b
        then invalid_argument
        else if not c
        then invalid_argument
        else rest)
      ≡ ok text
    → (a ≡ true) × (b ≡ true) × (c ≡ true) × (rest ≡ ok text)
guards_passed true true true rest text e = (refl, refl, refl, e)
guards_passed true true false rest text e = cc
guards_passed true false c rest text e = cc
guards_passed false b c rest text e = cc

abbrev compare_hash : Result (List ℕ) → Result (List ℕ) → Result (List ℕ) → Result (List ℕ)
compare_hash computed listed out = do
  hash ← computed
  expected ← listed
  if not (bytes_eq (bin2base64_unpadded hash) expected) then invalid_argument else out

hash_passed :
    (computed listed out : Result (List ℕ)) (text : List ℕ)
    → compare_hash computed listed out ≡ ok text
    → (hash : List ℕ) × (computed ≡ ok hash)
      × (listed ≡ ok (bin2base64_unpadded hash))
      × (out ≡ ok text)
hash_passed (ok hash) (ok expected) out text e =
    elim (Bool-cases (bytes_eq (bin2base64_unpadded hash) expected)) [
      | inl same ↦ (
        hash,
        refl,
        ap ok (sym ((bytes_eq_iff (bin2base64_unpadded hash) expected).0 same)),
        rw same at e,
      )
      | inr other ↦ cc (rw other at e)
    ]
hash_passed (ok hash) invalid_argument out text e = cc
hash_passed (ok hash) runtime_error out text e = cc
hash_passed (ok hash) out_of_range out text e = cc
hash_passed (ok hash) undefined_behavior out text e = cc
hash_passed invalid_argument listed out text e = cc
hash_passed runtime_error listed out text e = cc
hash_passed out_of_range listed out text e = cc
hash_passed undefined_behavior listed out text e = cc

abbrev text_of : OpensslLibrary → List ℕ → EncryptedFile → Result (List ℕ)
text_of ssl ciphertext info =
    aes_ctr_256_decrypt ssl ciphertext (base642bin_urlsafe_unpadded info.key.k)
      (base642bin_unpadded info.iv)

module _ (ssl : OpensslLibrary) where
  -- Decryption of a file returns a text exactly where the version, the key type and the algorithm are
  -- the supported ones, the description lists the hash of the ciphertext, its key has 32 bytes and its
  -- iv 16 at least, the size of the ciphertext is not negative as an `int`, and the decryption of the
  -- ciphertext with that key and iv gives the text.
  pub decrypt_file_iff :
      (ciphertext text : List ℕ) (info : EncryptedFile)
      → (decrypt_file ssl ciphertext info ≡ ok text) ↔ (
          (hash : List ℕ) × (info.v ≡ "v2")
          × (info.key.kty ≡ "oct")
          × (info.key.alg ≡ "A256CTR")
          × (sha256 ssl ciphertext ≡ ok hash)
          × (hash_at "sha256" info ≡ ok (bin2base64_unpadded hash))
          × (32 ≤ length (base642bin_urlsafe_unpadded info.key.k))
          × (16 ≤ length (base642bin_unpadded info.iv))
          × (length ciphertext % 2 ^ 32 < 2 ^ 31)
          × (aes_ctr_256_decrypt ssl ciphertext
                (base642bin_urlsafe_unpadded info.key.k)
                (base642bin_unpadded info.iv)
              ≡ ok text))
  unfolding decrypt_file
  decrypt_file_iff ciphertext text info = (
    λ e.
        let (version, kind, algorithm, rest) =
          guards_passed (str_eq info.v "v2") (str_eq info.key.kty "oct")
            (str_eq info.key.alg "A256CTR")
            (compare_hash (sha256 ssl ciphertext) (hash_at "sha256" info)
              (text_of ssl ciphertext info))
            text e in
        let (hash, computed, listed, decrypted) =
          hash_passed (sha256 ssl ciphertext) (hash_at "sha256" info) (text_of ssl ciphertext info)
            text rest in
        let (key_size, iv_size, fits) =
          run_ctr-sizes ssl.ctr_decrypt ciphertext (base642bin_urlsafe_unpadded info.key.k)
            (base642bin_unpadded info.iv) text decrypted in
        (
          hash,
          (eq_iff info.v "v2").0 version,
          (eq_iff info.key.kty "oct").0 kind,
          (eq_iff info.key.alg "A256CTR").0 algorithm,
          computed,
          listed,
          key_size,
          iv_size,
          fits,
          decrypted,
        ),
    λ accepted.
        let (hash, version, kind, algorithm, computed, listed, key_size, iv_size, fits, decrypted) =
          accepted in
        rw
          (
            (eq_iff info.v "v2").1 version,
            (eq_iff info.key.kty "oct").1 kind,
            (eq_iff info.key.alg "A256CTR").1 algorithm,
            computed,
            listed,
            bytes_eq_refl (bin2base64_unpadded hash),
          )
          decrypted,
  )

module _ (ssl : OpensslLibrary) (laws : OpensslLaws ssl) where
  -- The description that the encryption of a file returns decrypts it to the file, where OpenSSL keeps
  -- its laws, the file is bytes with a size that an `int` holds, and the random buffers are 32 bytes
  -- for the key and 16 for the iv.
  pub decrypt_file-encrypt_file :
      (key random_iv plaintext : List ℕ)
      → length key ≡ 32
      → length random_iv ≡ 16
      → AreBytes key
      → AreBytes random_iv
      → AreBytes plaintext
      → length plaintext < 2 ^ 31
      → (encrypt_file ssl key random_iv plaintext >>= (λ file. decrypt_file ssl file.0 file.1))
        ≡ ok plaintext
  unfolding encrypt_file hash_at lookup
  decrypt_file-encrypt_file key random_iv plaintext m n h k p small =
      let iv = file_iv random_iv in
      let iv_size = length-file_iv random_iv ∙ n in
      let key_back = (base642bin_unpadded-bin2base64_unpadded key h).1 in
      let iv_back = (base642bin_unpadded-bin2base64_unpadded iv (file_iv-AreBytes random_iv k)).0 in
      let (cipher, encrypted, size, cipher_bytes, decrypted) =
        laws.ctr_inverse key iv plaintext m iv_size small p in
      let (hash, e, bytes) = laws.digest_bytes cipher in
      let computed = sha256-some ssl cipher hash e in
      let opened =
        run_ctr_lem ssl.ctr_decrypt cipher key iv plaintext m iv_size (omega (arith, size, small))
          decrypted in
      rw (run_ctr_lem ssl.ctr_encrypt plaintext key iv cipher m iv_size small encrypted, computed)
        ((decrypt_file_iff ssl cipher plaintext _).1 (
          hash,
          refl,
          refl,
          refl,
          computed,
          refl,
          rw (key_back, m) (omega arith),
          rw (iv_back, iv_size) (omega arith),
          omega (arith, size, small),
          rw (key_back, iv_back) opened,
        ))
