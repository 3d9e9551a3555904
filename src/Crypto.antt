-- ===== src/Crypto.antt =====
-- lib/crypto/utils.cpp: secrets that the server stores, encrypted files, and key files.
pub mod Primitives
pub mod Secrets
pub mod Recovery
pub mod Files
mod Examples
