-- ===== src/Aes.antt =====
-- The AES cipher of openmpmic/aes.c.
pub mod Tables
pub mod Word
pub mod Context
pub mod KeySchedule
pub mod Cipher
pub mod Bounds
pub mod RoundTrip
