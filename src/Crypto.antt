-- ===== src/Crypto.antt =====
-- util.c, the authenticated encryption of archives and its key derivation.
pub mod Derive
pub mod Aead
pub mod Setup
pub mod Tests
