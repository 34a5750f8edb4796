-- ===== src/Fips.antt =====
-- AES as FIPS-197 describes it, and openmpmic/aes.c beside it.
pub mod Field
pub mod Cipher
pub mod Box
pub mod Columns
pub mod Expansion
pub mod Schedule
pub mod Groups
pub mod KeyExpansion
pub mod Refine
