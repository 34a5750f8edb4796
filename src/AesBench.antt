-- ===== src/AesBench.antt =====
-- The programs of aes_bench/, which run the cipher on one core.
pub mod Card
pub mod Run
