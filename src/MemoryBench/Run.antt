-- ===== src/MemoryBench/Run.antt =====
-- The runs of memory/memory.c and memory/formem.c.
use xeon_phi_kernel_integrat.Base.{
  ℕ, ◌+◌, ◌*◌, ◌%◌, ◌≤◌, ◌<◌, ltb, Bool-cases, ap, ◌≡◌, ◌⊎◌, inl, inr, refl, sym, arith, ◌∙◌, suc,
}
use mathlib.Core.Option.{Option, some, none}
use xeon_phi_kernel_integrat.Memory.{Memory}
use xeon_phi_kernel_integrat.Memory.Loop.{Apart}
use xeon_phi_kernel_integrat.Client.Library.{Scif, IsDocumented, IsCopied}
use xeon_phi_kernel_integrat.Client.Step.{Exit, value, returned, for_sizes, exit_code, effect}
use xeon_phi_kernel_integrat.Client.Rules.{Post, for_sizes_rule}
use xeon_phi_kernel_integrat.Client.HostLaws.{rounds_from}
use xeon_phi_kernel_integrat.Openmp.Card.{len, sizearray}
use xeon_phi_kernel_integrat.Openmp.Benchmark.{later, below}
use xeon_phi_kernel_integrat.Openmp.LocalRun.{completed}
use xeon_phi_kernel_integrat.MemoryBench.Copy.{
  memcpy, copy_loop, Pointers, Stack, copying, take_buffers, copy_blocks, memory_main, fill,
  copy_bytes, formem_main,
}
use xeon_phi_kernel_integrat.MemoryBench.CopyLaws.{memcpy-IsCopied, copy_loop-IsCopied}

-- a way to copy, `copy`, and a loop over sizes that copies `times + 1` times
module _ (lib : Scif) (doc : IsDocumented lib) (p : Pointers) (apart : Apart len p.dest p.src)
    (copy : ℕ → Memory → Memory)
    (copies : (n : ℕ) (m : Memory) → n ≤ len → IsCopied m m (copy n m) p.dest p.src n) (times : ℕ)
    (w : lib.World) where
  abbrev Outside : lib.World → Type 0
  Outside w' =
      (x : ℕ) → (x < p.dest) ⊎ (p.dest + len ≤ x) → lib.local_memory w' x ≡ lib.local_memory w x

  abbrev Copied : ℕ → lib.World → Type 0
  Copied n w' = (i : ℕ) → i < n → lib.local_memory w' (p.dest + i) ≡ lib.local_memory w (p.src + i)

  pass :
      (n : ℕ) (w' : lib.World)
      → n ≤ len
      → Outside w'
      → Post lib (λ _. ⊥) (λ w''. Outside w'' × Copied n w'') (copying lib (copy n) w')
  unfolding copying effect
  pass n w' le outside =
      let done = copies n (lib.local_memory w') le in
      rw (doc.local_written (copy n (lib.local_memory w')) w') (
        (λ x h. done.others x (omega arith) ∙ outside x h),
        (λ i lt. done.copied i lt ∙ outside (p.src + i) (omega arith)),
      )

  pub loop-IsCopied :
      let (r, w') = for_sizes (suc times) sizearray (λ n. copying lib (copy n)) w in
      (r ≡ value tt)
      × IsCopied (lib.local_memory w) (lib.local_memory w) (lib.local_memory w') p.dest p.src len
  loop-IsCopied =
      completed lib (λ w'. Outside w' × Copied len w')
        (λ w'.
          IsCopied (lib.local_memory w) (lib.local_memory w) (lib.local_memory w') p.dest p.src len)
        (for_sizes (suc times) sizearray (λ n. copying lib (copy n)) w)
        (for_sizes_rule lib (λ _. ⊥) times (λ k. k ≤ len) Outside Copied (λ n. copying lib (copy n))
          pass 64 later w below (λ x h. refl))
        (λ w' q. record { copied = q.1; others = q.0 })

ended :
    (lib : Scif) (Q : lib.World → Type 0) (o : Exit (Unit {0}) × lib.World)
    → (o.0 ≡ value tt) × Q o.1
    → let (c, w') = exit_code o in (c ≡ 0) × Q w'
unfolding exit_code
ended lib Q (value a, w) q = (refl, q.1)
ended lib Q (returned c, w) (e, q) = cc

-- The program of memory/memory.c, where its allocations give it two buffers that do not overlap,
-- returns 0, and `dest` holds then the `len` bytes that stood at `src` before the loops, and nothing
-- else has changed.
pub memory_main_lem :
    (lib : Scif) (p : Pointers) (w w1 : lib.World)
    → IsDocumented lib
    → take_buffers lib w ≡ (some p, w1)
    → Apart len p.dest p.src
    → (w' : lib.World) × (memory_main lib w ≡ some (0, w'))
      × IsCopied (lib.local_memory w1) (lib.local_memory w1) (lib.local_memory w') p.dest p.src len
unfolding memory_main copy_blocks
memory_main_lem lib p w w1 doc taken apart =
    let (e, copied) =
      ended lib
        (λ w'.
          IsCopied (lib.local_memory w1) (lib.local_memory w1) (lib.local_memory w') p.dest p.src
            len)
        (copy_blocks lib p w1)
        (loop-IsCopied lib doc p apart (λ n. memcpy n p.dest p.src)
          (λ n m le. memcpy-IsCopied n p.dest p.src m) 14 w1) in
    let w' = (exit_code (copy_blocks lib p w1)).1 in
    (
      w',
      ap
            (λ (o : Option Pointers × lib.World). elim o.0 as (λ _. Option (ℕ × lib.World)) [
              | some q ↦ some (exit_code (copy_blocks lib q o.1))
              | none ↦ none
            ])
            taken
          ∙ ap (λ (c : ℕ). some (c, w')) e,
      copied,
    )

-- The memory of memory/formem.c after the loops: both arrays hold the same `len` bytes, each from 1 to
-- 100, and nothing else has changed.
abbrev pub IsFilledTwice : Pointers → Memory → Memory → Type 0
IsFilledTwice p m m' =
    ((i : ℕ)
      → i < len
      → (m' (p.dest + i) ≡ m' (p.src + i)) × (0 < m' (p.src + i)) × (m' (p.src + i) ≤ 100))
    × ((x : ℕ) → (x < p.dest) ⊎ (p.dest + len ≤ x) → (x < p.src) ⊎ (p.src + len ≤ x) → m' x ≡ m x)

formem_filled :
    (lib : Scif) (p : Pointers) (w : lib.World)
    → IsDocumented lib
    → Apart len p.dest p.src
    → let (c, w') = exit_code (copy_bytes lib p (fill lib len p.src w)) in
      (c ≡ 0) × IsFilledTwice p (lib.local_memory w) (lib.local_memory w')
unfolding copy_bytes fill
formem_filled lib p w doc apart =
    let w1 = fill lib len p.src w in
    let (inside, outside) =
      rounds_from lib doc (λ v. (0 < v) × (v ≤ 100)) (λ r. r % 100 + 1)
        (λ r. (omega arith, omega arith)) len 0 p.src w in
    let (e, copied) =
      ended lib
        (λ w'.
          IsCopied (lib.local_memory w1) (lib.local_memory w1) (lib.local_memory w') p.dest p.src
            len)
        (copy_bytes lib p w1)
        (loop-IsCopied lib doc p apart (λ n. copy_loop n p.dest p.src)
          (λ n m le. copy_loop-IsCopied n p.dest p.src m (omega arith)) 19 w1) in
    (
      e,
      (
        (λ i lt.
            let same = copied.others (p.src + i) (omega arith) in
            let kind = inside i (omega arith) (omega arith) in
            (copied.copied i lt ∙ sym same, omega (arith, same, kind), omega (arith, same, kind))),
        (λ x h h'. copied.others x h ∙ outside x (omega arith)),
      ),
    )

-- The program of memory/formem.c: where the stack has room for its two arrays, and these do not overlap,
-- it returns 0, and both hold then the same `len` bytes, each from 1 to 100, and nothing else has
-- changed; where it has less, the program ends before it does anything.
pub formem_main_lem :
    (lib : Scif) (stack : Stack) (w : lib.World)
    → IsDocumented lib
    → Apart len stack.arrays.dest stack.arrays.src
    → ((2 * len ≤ stack.room)
        × (w' : lib.World) × (formem_main lib stack w ≡ some (0, w'))
        × IsFilledTwice stack.arrays (lib.local_memory w) (lib.local_memory w'))
      ⊎ ((stack.room < 2 * len) × (formem_main lib stack w ≡ none))
unfolding formem_main
formem_main_lem lib stack w doc apart = elim (Bool-cases (ltb stack.room (2 * len))) [
  | inl small ↦ inr (ground (arith, small), rw small refl)
  | inr large ↦
      let (e, filled) = formem_filled lib stack.arrays w doc apart in
      let o = exit_code (copy_bytes lib stack.arrays (fill lib len stack.arrays.src w)) in
      inl (ground (arith, large), o.1, rw large (ap (λ (c : ℕ). some (c, o.1)) e), filled)
]
