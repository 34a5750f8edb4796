-- ===== src/Openmp.antt =====
-- The programs of openmpmic/, which run the cipher on buffers of the card.
pub mod Card
pub mod Kernel
pub mod Benchmark
pub mod Host
pub mod HostRun
pub mod Local
pub mod LocalRun
pub mod LocalMain
