-- ===== src/Latency/Codes.antt =====
-- The exit codes of the programs of Latency/Programs.
