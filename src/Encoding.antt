-- ===== src/Encoding.antt =====
-- lib/crypto/encoding.cpp: base64 and base58.
pub mod Alphabet
pub mod Base64
pub mod Base58
