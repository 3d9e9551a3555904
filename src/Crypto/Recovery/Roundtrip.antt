-- ===== src/Crypto/Recovery/Roundtrip.antt =====
-- A recovery key that was written is read as the same key.
use Prim.Native.Nat.{bit_xor}
use mtxclient.Shared.{
  ℕ, suc, ◌+◌, ◌-◌, ◌%◌, ◌<◌, ◌≤◌, ◌≡◌, ◌∙◌, refl, ap, Bool, Bool-cases, inl, inr, true, false, not,
  Option, some, none, List, [], ◌∷◌, ◌++◌, length, length-append, take, take-append, get_or,
  All-append, AreBytes, arith, if◌then◌else◌, ◌==◌, ==_iff, ltb,
}
use mtxclient.Libraries.Openssl.{OpensslLibrary}
use mtxclient.Encoding.Base58.{base582bin}
use mtxclient.Encoding.Base58.Roundtrip.{base582bin-bin2base58}
use mtxclient.Crypto.Primitives.{Result, ok, drop, HkdfKeys, hkdf_sha256}
use mtxclient.Crypto.Secrets.{KeyDescription, verify_key, zeros}
use mtxclient.Crypto.Secrets.Keys.{check_value, verify_key_passed}
use mtxclient.Encoding.Base64.{base642bin}
use mtxclient.Crypto.Recovery.{
  parity_of, mark_parity, is_marked, key_to_recoverykey, key_from_bytes, key_from_recoverykey,
}

get_or-append : (xs : List ℕ) (x : ℕ) → get_or (xs ++ x ∷ []) (length xs) 0 ≡ x
get_or-append [] x = refl
get_or-append (y ∷ xs) x = get_or-append xs x

parity_of-byte : (parity : ℕ) (bytes : List ℕ) → parity < 256 → parity_of parity bytes < 256
unfolding parity_of
parity_of-byte parity [] h = h
parity_of-byte parity (byte ∷ bytes) h =
    parity_of-byte (bit_xor parity byte % 256) bytes (omega arith)

-- The bytes of a recovery key around a key.
abbrev wrapped : List ℕ → List ℕ
wrapped key = 0x8b ∷ (0x01 ∷ (key ++ parity_of mark_parity key ∷ []))

parity_of-marks : (key : List ℕ) → parity_of 0 (0x8b ∷ (0x01 ∷ key)) ≡ parity_of mark_parity key
unfolding parity_of
parity_of-marks key = refl

not_short : (size : ℕ) → 3 ≤ size → ltb size 3 ≡ false
not_short size h = ground arith

module _ (ssl : OpensslLibrary) where
  key_from_bytes-wrapped :
      (key : List ℕ) (parameters : KeyDescription)
      → key_from_bytes ssl (wrapped key) parameters ≡ verify_key ssl key parameters
  unfolding key_from_bytes
  key_from_bytes-wrapped key parameters =
      let parity = parity_of mark_parity key in
      let size = length (wrapped key) in
      let size_eq : size ≡ length key + 3 = omega (arith, length-append key (parity ∷ [])) in
      let last : size - 1 ≡ suc (suc (length key)) = omega (arith, size_eq) in
      let inner : size - 3 ≡ length key = omega (arith, size_eq) in
      let long : ltb size 3 ≡ false = not_short size (omega (arith, size_eq)) in
      rw
        (
          long,
          last,
          inner,
          take-append key (parity ∷ []),
          get_or-append key parity,
          parity_of-marks key,
          (==_iff parity parity).1 refl,
        )
        refl

  -- A key of bytes can be written as a recovery key, and the recovery key is read back to the check of
  -- the key that was written.
  pub key_from_recoverykey-key_to_recoverykey :
      (key : List ℕ) (parameters : KeyDescription)
      → AreBytes key
      → (text : List ℕ) × (key_to_recoverykey key ≡ some text)
        × (key_from_recoverykey ssl text parameters ≡ verify_key ssl key parameters)
  unfolding key_to_recoverykey key_from_recoverykey
  key_from_recoverykey-key_to_recoverykey key parameters h =
      let parity = parity_of mark_parity key in
      let (text, written, read) =
        base582bin-bin2base58 (wrapped key)
          (
            omega arith,
            (
              omega arith,
              All-append (λ b. b < 256) key (parity ∷ []) h
                  (parity_of-byte mark_parity key (omega arith), tt),
            ),
          )
          refl in
      (
        text,
        written,
        ap (λ bytes. key_from_bytes ssl bytes parameters) read
            ∙ key_from_bytes-wrapped key parameters,
      )

  -- Bytes that give a key have the two marks in front of it and its parity behind it.
  key_from_bytes-some :
      (temp_key key : List ℕ) (parameters : KeyDescription)
      → key_from_bytes ssl temp_key parameters ≡ ok (some key)
      → (is_marked temp_key ≡ true)
        × (parity_of 0 (take (length temp_key - 1) temp_key)
            ≡ get_or temp_key (length temp_key - 1) 0)
        × (verify_key ssl (take (length temp_key - 3) (drop 2 temp_key)) parameters ≡ ok (some key))
  unfolding key_from_bytes
  key_from_bytes-some temp_key key parameters e =
      guarded (is_marked temp_key) (parity_of 0 (take (length temp_key - 1) temp_key))
        (get_or temp_key (length temp_key - 1) 0)
        (verify_key ssl (take (length temp_key - 3) (drop 2 temp_key)) parameters) e
    where
      guarded :
          (marked : Bool) (parity last : ℕ) (rest : Result (Option (List ℕ)))
          → (if not marked then ok none else if not (parity == last) then ok none else rest)
            ≡ ok (some key)
          → (marked ≡ true) × (parity ≡ last) × (rest ≡ ok (some key))
      guarded false parity last rest e = cc
      guarded true parity last rest e = elim (Bool-cases (parity == last)) [
        | inl same ↦ (refl, (==_iff parity last).0 same, rw same at e)
        | inr other ↦ cc (rw other at e)
      ]

  -- A key that a recovery key gives is what stands in it between the two marks and a parity byte that
  -- fits, and the MAC that it makes of 32 encrypted zeros is the one of the description.
  pub key_from_recoverykey-checked :
      (text key : List ℕ) (parameters : KeyDescription)
      → key_from_recoverykey ssl text parameters ≡ ok (some key)
      → (is_marked (base582bin text) ≡ true)
        × (parity_of 0 (take (length (base582bin text) - 1) (base582bin text))
            ≡ get_or (base582bin text) (length (base582bin text) - 1) 0)
        × (key ≡ take (length (base582bin text) - 3) (drop 2 (base582bin text)))
        × ((keys : HkdfKeys) × (hkdf_sha256 ssl key (zeros 32) [] ≡ ok keys)
            × (check_value ssl parameters keys ≡ ok (base642bin parameters.mac)))
  unfolding key_from_recoverykey
  key_from_recoverykey-checked text key parameters e =
      let (marked, parity, verified) = key_from_bytes-some (base582bin text) key parameters e in
      let inner = take (length (base582bin text) - 3) (drop 2 (base582bin text)) in
      let (same, (keys, derived, mac)) = verify_key_passed ssl inner key parameters verified in
      (marked, parity, same, (keys, ap (λ k. hkdf_sha256 ssl k (zeros 32) []) same ∙ derived, mac))
