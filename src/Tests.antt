-- ===== src/Tests.antt =====
-- Runs of the code on concrete inputs.
pub mod Cipher
pub mod Loopback
pub mod Messages
pub mod Pair
pub mod Buffers
pub mod Connect
pub mod Programs
pub mod Local
pub mod Hosts
pub mod Echo
pub mod Kernel
pub mod Module
pub mod MemoryBench
pub mod PingPong
pub mod Transfers
