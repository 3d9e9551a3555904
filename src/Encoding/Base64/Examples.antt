-- ===== src/Encoding/Base64/Examples.antt =====
-- Runs of the base64 functions, with the vectors of tests/crypto.cpp, and the theorems at them.
use mtxclient.Shared.{ℕ, ◌*◌, ◌+◌, ◌/◌, ◌≡◌, refl, List, codes, length, arith}
use mtxclient.Encoding.Base64.{
  missing_of, letters, encode_groups, pad_with, encode_base64, base642bin, bin2base64,
  bin2base64_unpadded,
}
use mtxclient.Encoding.Base64.Roundtrip.{base642bin-bin2base64, length-bin2base64}

abbrev foob : List ℕ
foob = codes "foob"

encodes : bin2base64 foob ≡ codes "Zm9vYg=="
unfolding bin2base64 missing_of letters encode_groups pad_with encode_base64
encodes = refl

encodes_unpadded : bin2base64_unpadded foob ≡ codes "Zm9vYg"
unfolding bin2base64_unpadded missing_of letters encode_groups encode_base64
encodes_unpadded = refl

base642bin-bin2base64_example : base642bin (bin2base64 foob) ≡ foob
base642bin-bin2base64_example = base642bin-bin2base64 foob (omega arith)

length-bin2base64_example :
    (length (bin2base64 foob) ≡ 4 * ((length foob + 2) / 3))
    × (length (bin2base64_unpadded foob) ≡ (length foob * 4 + 2) / 3)
length-bin2base64_example = length-bin2base64 foob
