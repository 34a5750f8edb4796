-- ===== src/MemoryBench.antt =====
-- The programs of memory.
pub mod Copy
pub mod CopyLaws
pub mod Run
