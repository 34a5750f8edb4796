-- ===== src/Tests/MemoryBench.antt =====
-- The theorems on the programs of memory at a concrete memory.
use xeon_phi_kernel_integrat.Base.{refl, ◌*◌, ◌≤◌, ◌<◌, ◌≡◌, ◌⊎◌, inr, arith}
use mathlib.Core.Option.{some, none}
use xeon_phi_kernel_integrat.Client.Library.{IsCopied}
use xeon_phi_kernel_integrat.Openmp.Card.{len}
use xeon_phi_kernel_integrat.MemoryBench.Copy.{
  Pointers, Stack, non_null, pointers, memcpy, copy_loop, aligned, take_buffers, memory_main,
  formem_main,
}
use xeon_phi_kernel_integrat.MemoryBench.CopyLaws.{copy_loop-memcpy}
use xeon_phi_kernel_integrat.MemoryBench.Run.{IsFilledTwice, memory_main_lem, formem_main_lem}
use xeon_phi_kernel_integrat.Tests.Buffers.{counting}
use xeon_phi_kernel_integrat.Tests.Loopback.{TwoMemories, loopback, loopback-IsDocumented}
use xeon_phi_kernel_integrat.Tests.Programs.{both}

copy_loop-memcpy_example : copy_loop 64 1000 200 counting 1010 ≡ memcpy 64 1000 200 counting 1010
copy_loop-memcpy_example = copy_loop-memcpy 64 1000 200 counting (inr (omega arith)) 1010

-- What the set-up of memory/memory.c gives.
abbrev taken : Pointers
taken = record { src = 0; dest = 9663676416 }

malloced : take_buffers loopback both ≡ (some taken, (take_buffers loopback both).1)
unfolding take_buffers aligned non_null pointers
malloced = refl

memory_main_lem_example :
    let w1 = (take_buffers loopback both).1 in
    (w' : TwoMemories) × (memory_main loopback both ≡ some (0, w'))
    × IsCopied w1.card w1.card w'.card 9663676416 0 len
memory_main_lem_example =
    memory_main_lem loopback taken both (take_buffers loopback both).1 loopback-IsDocumented
      malloced (inr (omega arith))

-- a stack of three gigabytes
abbrev stack : Stack
stack = record { room = 3221225472; arrays = record { src = 4096; dest = 2147483648 } }

formem_main_lem_example :
    ((2 * len ≤ 3221225472)
      × (w' : TwoMemories) × (formem_main loopback stack both ≡ some (0, w'))
      × IsFilledTwice stack.arrays counting w'.card)
    ⊎ ((3221225472 < 2 * len) × (formem_main loopback stack both ≡ none))
formem_main_lem_example =
    formem_main_lem loopback stack both loopback-IsDocumented (inr (omega arith))
