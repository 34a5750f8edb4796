-- ===== src/Throughput.antt =====
-- The throughput benchmark.
pub mod Card
pub mod Run
