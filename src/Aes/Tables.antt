-- ===== src/Aes/Tables.antt =====
-- The sixteen lookup tables of openmpmic/aes.c and the reading of one of them.
pub mod Ft
pub mod Fl
pub mod It
pub mod Il
pub mod Laws
