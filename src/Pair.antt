-- ===== src/Pair.antt =====
-- A program of the host and a program of the card together.
pub mod Offsets
pub mod Openmp
pub mod Wait
pub mod Reports
