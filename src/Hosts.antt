-- ===== src/Hosts.antt =====
-- The programs of the host that receive into memory: those of aes_bench, scaling, throughput and
-- latency/readwrite.
pub mod Exchange
pub mod Run
pub mod Codes
