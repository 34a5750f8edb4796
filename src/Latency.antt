-- ===== src/Latency.antt =====
-- The latency benchmarks.
pub mod PingPong
pub mod Phases
pub mod Runs
pub mod Programs
pub mod Codes
pub mod Card
pub mod CardRun
