-- ===== src/Echo.antt =====
-- The programs of base.
pub mod Exchange
pub mod Run
