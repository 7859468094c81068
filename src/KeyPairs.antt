-- ===== src/KeyPairs.antt =====
-- The generation of key pairs.
pub mod Encryption
pub mod Signing
pub mod Exchange
