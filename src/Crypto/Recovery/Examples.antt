-- ===== src/Crypto/Recovery/Examples.antt =====
-- The theorems on recovery keys at a key of one byte.
use mtxclient.Shared.{
  ℕ, ◌-◌, ◌≡◌, refl, arith, true, none, some, List, [], ◌∷◌, length, take, get_or, codes,
}
use mtxclient.Samples.{sample_ssl}
use mtxclient.Encoding.Alphabet.{base58_to_int}
use mtxclient.Encoding.Base64.{base642bin, bin2base64}
use mtxclient.Encoding.Base64.Roundtrip.{base642bin-bin2base64}
use mtxclient.Encoding.Base58.{
  base582bin, decode_base58, decode_letters, decode_digit, scale_digits, scale_carry, push_bytes,
  leading,
}
use mtxclient.Crypto.Primitives.{ok, HkdfKeys, hkdf_sha256, int_sized, run_ctr, drop}
use mtxclient.Crypto.Secrets.{KeyDescription, verify_key, zeros}
use mtxclient.Crypto.Secrets.Keys.{check_value}
use mtxclient.Crypto.Recovery.{
  parity_of, is_marked, key_to_recoverykey, key_from_bytes, key_from_recoverykey,
}
use mtxclient.Crypto.Recovery.Roundtrip.{
  key_from_recoverykey-key_to_recoverykey, key_from_recoverykey-checked,
}

abbrev key : List ℕ
key = 5 ∷ []

abbrev recovery_text : List ℕ
recovery_text = codes "4Z5d5Q"

abbrev parameters : KeyDescription
parameters = record {
  name = "default";
  algorithm = "m.secret_storage.v1.aes-hmac-sha2";
  passphrase = none;
  iv = bin2base64 (zeros 16);
  mac = bin2base64 (32 ∷ 7 ∷ []);
  signatures = [];
}

key_from_recoverykey-key_to_recoverykey_example :
    (text : List ℕ) × (key_to_recoverykey key ≡ some text)
    × (key_from_recoverykey sample_ssl text parameters ≡ verify_key sample_ssl key parameters)
key_from_recoverykey-key_to_recoverykey_example =
    key_from_recoverykey-key_to_recoverykey sample_ssl key parameters (omega arith, tt)

recovers : key_from_recoverykey sample_ssl recovery_text parameters ≡ ok (some key)
unfolding key_from_recoverykey key_from_bytes parity_of verify_key hkdf_sha256 int_sized run_ctr
    base582bin decode_base58 decode_letters decode_digit scale_digits scale_carry push_bytes leading
    base58_to_int
recovers =
    rw
      (
        base642bin-bin2base64 (zeros 16) (ground arith),
        base642bin-bin2base64 (32 ∷ 7 ∷ []) (omega arith, (omega arith, tt)),
      )
      refl

key_from_recoverykey-checked_example :
    (is_marked (base582bin recovery_text) ≡ true)
    × (parity_of 0 (take (length (base582bin recovery_text) - 1) (base582bin recovery_text))
        ≡ get_or (base582bin recovery_text) (length (base582bin recovery_text) - 1) 0)
    × (key ≡ take (length (base582bin recovery_text) - 3) (drop 2 (base582bin recovery_text)))
    × ((keys : HkdfKeys) × (hkdf_sha256 sample_ssl key (zeros 32) [] ≡ ok keys)
        × (check_value sample_ssl parameters keys ≡ ok (base642bin parameters.mac)))
key_from_recoverykey-checked_example =
    key_from_recoverykey-checked sample_ssl recovery_text key parameters recovers
