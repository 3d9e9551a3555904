-- ===== src/Libraries.antt =====
-- The third-party libraries that the code calls, as parameters: the operations that the modelled code
-- uses of them, and what it relies on.
pub mod Json
pub mod Re2
pub mod Openssl
