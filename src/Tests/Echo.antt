-- ===== src/Tests/Echo.antt =====
-- The theorems on the programs of base at concrete memories.
use xeon_phi_kernel_integrat.Base.{ℕ, ◌+◌, ◌%◌, ◌^◌, ◌≤◌, ◌<◌, ◌≡◌, ◌⊎◌}
use xeon_phi_kernel_integrat.Echo.Exchange.{increment}
use xeon_phi_kernel_integrat.Echo.Run.{increment_lem}
use xeon_phi_kernel_integrat.Tests.Buffers.{counting}

increment_lem_example :
    let m' = increment 200 64 counting in
    ((j : ℕ) → j < 200 → m' (64 + j) ≡ (counting (64 + j) + 1) % 2 ^ 8)
    × ((x : ℕ) → (x < 64) ⊎ (64 + 200 ≤ x) → m' x ≡ counting x)
increment_lem_example = increment_lem 200 64 counting
