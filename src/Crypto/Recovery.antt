-- ===== src/Crypto/Recovery.antt =====
-- Recovery keys in lib/crypto/utils.cpp: a key between two marks and a parity byte, in base58.
pub mod Roundtrip
mod Examples
use Prim.Native.Nat.{bit_xor}
use mtxclient.Shared.{
  ℕ, ◌-◌, ◌%◌, Bool, not, ◌||◌, Option, none, List, [], ◌∷◌, ◌++◌, length, take, get_or,
  if◌then◌else◌, ltb, ◌==◌,
}
use mtxclient.Libraries.Openssl.{OpensslLibrary}
use mtxclient.Encoding.Base58.{bin2base58, base582bin}
use mtxclient.Crypto.Primitives.{Result, ok, drop}
use mtxclient.Crypto.Secrets.{KeyDescription, verify_key}

-- The loop `parity ^= byte` from the parity of what came before.
unfoldable pub parity_of : ℕ → List ℕ → ℕ
parity_of parity [] = parity
parity_of parity (byte ∷ bytes) = parity_of (bit_xor parity byte % 256) bytes

-- `buf[0] ^ buf[1]`
abbrev pub mark_parity : ℕ
mark_parity = bit_xor 0x8b 0x01 % 256

unfoldable pub key_to_recoverykey : List ℕ → Option (List ℕ)
key_to_recoverykey key = bin2base58 (0x8b ∷ (0x01 ∷ (key ++ parity_of mark_parity key ∷ [])))

-- The test of the size and of the two marks.
abbrev pub is_marked : List ℕ → Bool
is_marked temp_key = not (
    ltb (length temp_key) 3
    || not (get_or temp_key 0 0 == 0x8b)
    || not (get_or temp_key 1 0 == 0x01))

module _ (ssl : OpensslLibrary) where
  unfoldable pub key_from_bytes : List ℕ → KeyDescription → Result (Option (List ℕ))
  key_from_bytes temp_key parameters =
      let size = length temp_key in
      if not (is_marked temp_key)
      then ok none
      else if not (parity_of 0 (take (size - 1) temp_key) == get_or temp_key (size - 1) 0)
      then ok none
      else verify_key ssl (take (size - 3) (drop 2 temp_key)) parameters

  unfoldable pub key_from_recoverykey : List ℕ → KeyDescription → Result (Option (List ℕ))
  unfolding key_from_bytes
  key_from_recoverykey recoverykey parameters = key_from_bytes (base582bin recoverykey) parameters
