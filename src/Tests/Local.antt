-- ===== src/Tests/Local.antt =====
-- The theorems on openmpmic/mic.c and scaling/mic.c at a concrete runtime, key and memory.
use mathlib.Core.Path.{subst}
use xeon_phi_kernel_integrat.Base.{ℕ, ◌+◌, ◌<◌, ◌≡◌, inr, arith}
use xeon_phi_kernel_integrat.Memory.Laws.{IsBytes}
use xeon_phi_kernel_integrat.Aes.Context.{aes_keysize_128, aes_keysize_256}
use xeon_phi_kernel_integrat.Client.Step.{
  Exit, value, returned, allocate, clear_buffer, obtain, effect,
}
use xeon_phi_kernel_integrat.Client.Whole.{Outcome}
use xeon_phi_kernel_integrat.Openmp.Card.{len}
use xeon_phi_kernel_integrat.Openmp.Local.{
  Buffers, buffers, local_half_len, local_benchmark, local_set_up, local_tear_down, local_main,
  local_scaling, local_scaling_main,
}
use xeon_phi_kernel_integrat.Openmp.LocalRun.{IsClear, IsRestored, local_benchmark_lem}
use xeon_phi_kernel_integrat.Openmp.LocalMain.{local_main_lem, local_scaling_main_lem}
use xeon_phi_kernel_integrat.Tests.Cipher.{blank, key_128, keyed}
use xeon_phi_kernel_integrat.Tests.Buffers.{counting, counting-IsBytes}
use xeon_phi_kernel_integrat.Tests.Loopback.{TwoMemories, loopback, loopback-IsDocumented}
use xeon_phi_kernel_integrat.Tests.Programs.{
  both, key_256, blank-IsKeyable, blank-IsKeyable_256, clear-IsBytes,
}

abbrev three : Buffers
three = buffers 0 1073741824 2147483648

three-IsClear : IsClear len three
three-IsClear = (inr (omega arith), inr (omega arith))

local_benchmark_lem_example :
    let (r, w') = local_benchmark loopback keyed three both in
    (r ≡ value tt) × ((i : ℕ) → i < len → w'.card (three.outbuffer + i) ≡ counting (three.ptr + i))
local_benchmark_lem_example =
    local_benchmark_lem loopback blank key_128 16 three both loopback-IsDocumented blank-IsKeyable
      three-IsClear counting-IsBytes

-- What the theorems ask of a set-up that has gone through.
abbrev Fits : ℕ → Exit Buffers × TwoMemories → Type 0
Fits n (value b, w) = IsClear n b × IsBytes w.card
Fits n (returned c, w) = Unit {0}

local_set_up-Fits : Fits len (local_set_up loopback len both)
unfolding local_set_up allocate clear_buffer obtain effect
local_set_up-Fits = (three-IsClear, clear-IsBytes len 0 counting counting-IsBytes)

local_main_lem_example :
    Outcome loopback
      (IsRestored loopback len)
      aes_keysize_128
      (local_set_up loopback len)
      (local_benchmark loopback)
      (local_tear_down loopback)
      blank
      key_128
      both
      (local_main loopback blank key_128 both)
local_main_lem_example =
    local_main_lem loopback blank key_128 both loopback-IsDocumented blank-IsKeyable
      (λ b w1 e. subst (Fits len) e local_set_up-Fits)

scaling_set_up-Fits : Fits local_half_len (local_set_up loopback local_half_len both)
unfolding local_set_up allocate clear_buffer obtain effect
scaling_set_up-Fits = (
  (inr (omega arith), inr (omega arith)),
  clear-IsBytes local_half_len 0 counting counting-IsBytes,
)

local_scaling_main_lem_example :
    Outcome loopback
      (IsRestored loopback local_half_len)
      aes_keysize_256
      (local_set_up loopback local_half_len)
      (local_scaling loopback)
      (local_tear_down loopback)
      blank
      key_256
      both
      (local_scaling_main loopback blank key_256 both)
local_scaling_main_lem_example =
    local_scaling_main_lem loopback blank key_256 both loopback-IsDocumented blank-IsKeyable_256
      (λ b w1 e. subst (Fits local_half_len) e scaling_set_up-Fits)
