-- ===== src/Lib.antt =====
-- The AES benchmark of the Xeon Phi: the cipher, and the programs that run it over a buffer that the
-- host and the card share through SCIF.
--
-- The parts. openmpmic/aes.c holds AES with lookup tables (aes_bench/aes.c and scaling/aes.c are the
-- same code): `crypto_aes_set_key` expands a key into the two arrays of a context, `aes_encrypt` and
-- `aes_decrypt` work on a block of sixteen bytes with it. openmpmic/scif_mic.c runs on the card: it
-- connects to the host, fetches the host's buffer, encrypts it block by block in a parallel loop,
-- fetches it again, decrypts what it has encrypted, and writes the result to the host's second
-- buffer, which openmpmic/scif_host.c, on the other side, compares with the first. openmpmic/mic.c does
-- the same in the card's memory alone. openmpmic/scif_kernel.c is the card's program against a kernel
-- module in the place of the host's program, aes_bench the same on one core, scaling one round of it
-- over one size with a longer key.
--
-- base sends a message to the card, which adds one to each byte and sends it back. throughput,
-- latency/readwrite and latency/sendrecv time transfers between the host and the card, memory times
-- copies within one memory, and the files of module are the host's side of some of these programs as
-- modules of the Linux kernel.
--
-- The files.
--   Base, Bits: shared names and lemmas on lists, on Boolean tests and on exclusive or.
--   Aes/Tables: the sixteen tables of openmpmic/aes.c, and how they hang together.
--   Aes/Word: `byte`, `star_x`, `imix_col`, `ls_box` of openmpmic/aes.c, `ror32` of
--     openmpmic/bitops.h.
--   Aes/Context: the structures of openmpmic/aes.h and openmpmic/crypto.h.
--   Aes/KeySchedule: `crypto_aes_expand_key` and `crypto_aes_set_key`, a function for each macro.
--   Aes/Cipher: `aes_encrypt` and `aes_decrypt`, a function for each macro.
--   Aes/Bounds, Aes/RoundTrip: what holds of the two together.
--   Fips/Field, Fips/Cipher, Fips/Expansion: the cipher and the key expansion of FIPS-197, on bytes
--     and the field of 256 elements, written without the tables. Fips/Refine and Fips/KeyExpansion hold
--     openmpmic/aes.c against them.
--   Memory: blocks in memory, and the parallel loops over buffers.
--   Client/Library: the calls of SCIF, of the C library, of OpenMP and of Cilk, which are a parameter,
--     and the documented behaviour that the theorems rely on.
--   Client/Step, Client/Session, Client/SetUp, Client/Crypt: what the programs of the card share, as
--     openmpmic/scif_mic.c writes it: a function for each kind of call with its error exit, the
--     connection, the set-up, the two kinds of round, the frame of `main`.
--   Client/Rules, Client/Safe, Client/Connect, Client/Passes, Client/Keyed, Client/Back,
--     Client/Whole: rules for these steps, and what follows for a program that is made of them.
--   Client/Host: the same for the programs of the host, after openmpmic/scif_host.c. Client/HostLaws
--     and Client/Unshare reason about it.
--   Openmp/Card, Openmp/Kernel: `main` of openmpmic/scif_mic.c and of openmpmic/scif_kernel.c.
--     Openmp/Benchmark reasons about them.
--   Openmp/Host: `main` of openmpmic/scif_host.c. Openmp/HostRun reasons about it.
--   Openmp/Local: `main` of openmpmic/mic.c and of scaling/mic.c. Openmp/LocalRun and Openmp/LocalMain
--     reason about them.
--   AesBench: `main` of aes_bench/scif_mic.c.
--   Scaling: `main` of scaling/scif_mic.c and of scaling/scif_kernel.c.
--   Client/Transfer: what the programs of the card in throughput and latency/readwrite share.
--     Client/TransferLaws reasons about it.
--   Throughput: `main` of throughput/scif_mic.c and of throughput/scif_kernel.c.
--   Latency/PingPong: the loops of latency/sendrecv, the host's and the card's side by side. A step is
--     one call of one side, and the connection between them is a parameter. Latency/Phases and Latency/Runs
--     reason about it.
--   Latency/Card: `main` of latency/readwrite/scif_mic.c and of latency/readwrite/scif_kernel.c.
--     Latency/CardRun reasons about them.
--   Hosts/Exchange: `main` of aes_bench/scif_host.c, scaling/scif_host.c, throughput/scif_host.c and
--     latency/readwrite/scif_host.c. Hosts/Run and Hosts/Codes reason about them.
--     Client/Checked and Client/CheckedSteps say of each call whether its failure ends the program.
--   Echo/Exchange: `main` of base/scif_host.c and of base/scif_mic.c. Echo/Run reasons about them.
--   Latency/Programs: `main` of latency/sendrecv/scif_host.c and of latency/sendrecv/scif_mic.c.
--     Latency/Codes reasons about them.
--   Module/Start: `scif_start` and `scif_end` of module/scaling.c, module/scif_dma.c and
--     module/readwrite.c, with the kernel as a parameter. Module/Heap, Module/Owned, Module/Taken,
--     Module/Free and Module/Balance reason about the buffers that they take, Module/Scif, Module/Open,
--     Module/Closed and Module/Left about the endpoints that they open. The windows are not counted.
--   Module/Kmalloc: the same of module/dma.c and module/sendrecv.c. Module/Released, Module/Null,
--     Module/FromPeer and Module/KmallocBalance reason about their buffers and about `placeholder`.
--   Client/Messages: the documented behaviour of `scif_send` and `scif_recv` that Pair relies on.
--     Client/Gives, Client/SendLaws and Client/ReceiveLaws reason about what the set-up of the host sends
--     and the set-up of the card receives.
--   Pair: the programs of the host and the card together, for openmpmic, aes_bench and scaling. The host's
--     set-up, the card's set-up and loops and the host's end run one after the other, as the messages
--     between them have it; each side has its own state of the world, and the theorems say what the two
--     have in common. Pair/Wait is about the receive at the end of the host's wait.
--   MemoryBench: `main` of memory/memory.c and of memory/formem.c, with no result where the source's
--     behaviour is undefined: a copy through a pointer that points nowhere, a stack that is too small.
--   Tests: runs of the code, and a SCIF library that keeps to the documentation.
--
-- The correspondence. A `uint32_t` is a natural number, and an operation that can exceed 32 bits is
-- cut to them where it stands. A `uint32_t` array is a list of words and a pointer into it an index;
-- reading past the end gives 0 and storing there does nothing. Memory is a function from addresses to
-- bytes, and both processors are little-endian. The rounds of a loop under `#pragma omp parallel for`
-- are made one after another in an order that the OpenMP runtime chooses. `main` is a program over a
-- state of the world, which the calls change, and ends early where the source returns. Every loop is
-- over a list or down a number: nothing runs on fuel.
-- Registered windows lie at the offset that is their address, as SCIF_MAP_FIXED has it.
--
-- Not modelled. Printing and clock readings, which nothing else depends on. `ctx->key_length = …` before
-- `crypto_aes_set_key`, which stores the same length again. module/include, a copy of Intel's driver,
-- and memory/stream, a copy of the STREAM benchmark.
pub mod Base
pub mod Bits
pub mod Aes
pub mod Fips
pub mod Memory
pub mod Client
pub mod Openmp
pub mod AesBench
pub mod Scaling
pub mod Throughput
pub mod Latency
pub mod Hosts
pub mod Echo
pub mod Pair
pub mod Module
pub mod MemoryBench
pub mod Tests
