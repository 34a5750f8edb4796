-- ===== src/Scaling.antt =====
-- The programs of scaling/, which run the cipher on buffers of half the size with a key of 32 bytes.
pub mod Card
pub mod Run
