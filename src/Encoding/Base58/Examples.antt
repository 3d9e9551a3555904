-- ===== src/Encoding/Base58/Examples.antt =====
-- The theorems on base58 at a key with a zero in front, and at one zero.
use mtxclient.Shared.{ℕ, ◌≡◌, refl, arith, some, List, [], ◌∷◌, codes}
use mtxclient.Encoding.Base58.{
  bin2base58, base582bin, encode_base58, encode_bytes, encode_byte, grow, scale_digits, scale_carry,
  leading,
}
use mtxclient.Encoding.Base58.Roundtrip.{base582bin-bin2base58, base582bin-zeros}

abbrev key : List ℕ
key = 0 ∷ 0x8b ∷ 1 ∷ 255 ∷ []

base582bin-bin2base58_example :
    (text : List ℕ) × (bin2base58 key ≡ some text) × (base582bin text ≡ key)
base582bin-bin2base58_example =
    base582bin-bin2base58 key (omega arith, (omega arith, (omega arith, (omega arith, tt)))) refl

base582bin-zeros_example :
    (bin2base58 (0 ∷ []) ≡ some (codes "11")) × (base582bin (codes "11") ≡ 0 ∷ 0 ∷ [])
base582bin-zeros_example = base582bin-zeros 0

letters : bin2base58 key ≡ some (codes "1oh6E")
unfolding bin2base58 encode_base58 encode_bytes encode_byte grow scale_digits scale_carry leading
letters = refl
