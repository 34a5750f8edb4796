-- ===== src/MemoryBench/Copy.antt =====
-- `main` of memory/memory.c, which copies a buffer with `memcpy`, and of memory/formem.c, which copies one
-- byte by byte. The clock and printing are left out.
use xeon_phi_kernel_integrat.Base.{ℕ, zero, suc, ◌+◌, ◌*◌, ◌-◌, ◌%◌, ltb, if◌then◌else◌}
use mathlib.Core.Option.{Option, some, none}
use xeon_phi_kernel_integrat.Memory.{Memory}
use xeon_phi_kernel_integrat.Client.Library.{Scif}
use xeon_phi_kernel_integrat.Client.Step.{M, effect, for_sizes, exit_code}
use xeon_phi_kernel_integrat.Client.Host.{store8, random_from}
use xeon_phi_kernel_integrat.Openmp.Card.{len, sizearray}

-- `memcpy(to, from, n)`, for two buffers that do not overlap
unfoldable pub memcpy : ℕ → ℕ → ℕ → Memory → Memory
memcpy n to from m x = if ltb x to then m x else if ltb x (to + n) then m (from + (x - to)) else m x

-- `dst[j] = src[j]`, from round `j` on, with `left` rounds to go
unfoldable pub copy_from : ℕ → ℕ → ℕ → ℕ → Memory → Memory
copy_from zero j dst src m = m
copy_from (suc left) j dst src m = copy_from left (j + 1) dst src (store8 (dst + j) (m (src + j)) m)

unfoldable pub copy_loop : ℕ → ℕ → ℕ → Memory → Memory
copy_loop n dst src = copy_from n 0 dst src

-- the two pointers of a program
pub record Pointers : Type 0 where
  pub src : ℕ
  pub dest : ℕ

-- The bytes that the system leaves for the stack of a program, and where its two arrays stand.
pub record Stack : Type 0 where
  pub room : ℕ
  pub arrays : Pointers

module _ (lib : Scif) where
  -- a copy of the program's own memory
  unfoldable pub copying : (Memory → Memory) → M lib.World (Unit {0})
  copying copy = effect (λ w. lib.write_local (copy (lib.local_memory w)) w)

  -- a pointer that `malloc` gives, which is null where it fails
  unfoldable pub non_null : ℕ → Option ℕ
  non_null zero = none
  non_null (suc a) = some (suc a)

  -- `posix_memalign(&p, …)`, whose result the program does not look at: `p` keeps its value where it
  -- fails. `none` is a pointer that points nowhere.
  unfoldable pub aligned : Option ℕ → ℕ → lib.World → Option ℕ × lib.World
  aligned old n w =
      let (o, w') = lib.posix_memalign 4096 n w in (elim o [ some a ↦ some a | none ↦ old ], w')

  unfoldable pub pointers : Option ℕ → Option ℕ → Option Pointers
  pointers (some a) (some b) = some (record { src = a; dest = b })
  pointers (some a) none = none
  pointers none b = none

  -- the two buffers, where both pointers point to one; `src` is unset before
  unfoldable pub take_buffers : lib.World → Option Pointers × lib.World
  take_buffers w =
      let (src, w1) = aligned none len w in
      let (dest, w2) = lib.malloc (len * 8) w1 in
      let (dest', w3) = aligned (non_null dest) len w2 in (pointers src dest', w3)

  -- The fifteen rounds of the parallel loop are the same copy, in whatever order they are made.
  unfoldable pub copy_blocks : Pointers → M lib.World (Unit {0})
  copy_blocks p = for_sizes 15 sizearray (λ n. copying (memcpy n p.dest p.src))

  -- The exit code and the world at the end; `none` where a copy goes through a pointer that points
  -- nowhere, which C leaves undefined.
  unfoldable pub memory_main : lib.World → Option (ℕ × lib.World)
  memory_main w =
      let (o, w') = take_buffers w in
      elim o [ some p ↦ some (exit_code (copy_blocks p w')) | none ↦ none ]

  -- the loop that fills `src`
  unfoldable pub fill : ℕ → ℕ → lib.World → lib.World
  fill n src = random_from lib (λ r. r % 100 + 1) n 0 src

  unfoldable pub copy_bytes : Pointers → M lib.World (Unit {0})
  copy_bytes p = for_sizes 20 sizearray (λ n. copying (copy_loop n p.dest p.src))

  -- `none` where the two arrays of `main` exceed the stack
  unfoldable pub formem_main : Stack → lib.World → Option (ℕ × lib.World)
  formem_main stack w =
      if ltb stack.room (2 * len)
      then none
      else some (exit_code (copy_bytes stack.arrays (fill len stack.arrays.src w)))
