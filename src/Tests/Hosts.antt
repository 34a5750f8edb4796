-- ===== src/Tests/Hosts.antt =====
-- The theorems on the host's programs at concrete memories.
use xeon_phi_kernel_integrat.Base.{ℕ, ◌+◌, ◌≤◌, ◌<◌, ◌≡◌, ◌⊎◌}
use xeon_phi_kernel_integrat.Client.Step.{value, returned}
use xeon_phi_kernel_integrat.Client.Rules.{Failure}
use xeon_phi_kernel_integrat.Client.Host.{Host, host, random_buffer}
use xeon_phi_kernel_integrat.Client.HostLaws.{IsSame, random_buffer_lem}
use xeon_phi_kernel_integrat.Openmp.Card.{len}
use xeon_phi_kernel_integrat.Openmp.Host.{host_end}
use xeon_phi_kernel_integrat.Openmp.HostRun.{host_end_lem}
use xeon_phi_kernel_integrat.Hosts.Exchange.{report_end}
use xeon_phi_kernel_integrat.Hosts.Run.{IsTrue, report_end_lem}
use xeon_phi_kernel_integrat.Tests.Buffers.{counting}
use xeon_phi_kernel_integrat.Tests.Loopback.{loopback, loopback-IsDocumented}
use xeon_phi_kernel_integrat.Tests.Programs.{both}

abbrev two_buffers : Host
two_buffers = host 3 4 0 1073741824

host_end_lem_example :
    let (r, w') = host_end loopback two_buffers both in
    ((r ≡ value tt) × IsSame len 0 1073741824 counting)
    ⊎ ((r ≡ returned 1) × (Failure loopback w' ⊎ (¬ IsSame len 0 1073741824 counting)))
host_end_lem_example = host_end_lem loopback two_buffers both loopback-IsDocumented

random_buffer_lem_example :
    let m = (random_buffer loopback 48 64 both).card in
    ((j : ℕ) → j < 48 → m (64 + j) < 10) × ((x : ℕ) → (x < 64) ⊎ (64 + 48 ≤ x) → m x ≡ counting x)
random_buffer_lem_example = random_buffer_lem loopback loopback-IsDocumented 48 64 both

report_end_lem_example :
    IsTrue loopback two_buffers 536870912 both (report_end loopback two_buffers 536870912 both)
report_end_lem_example = report_end_lem loopback two_buffers 536870912 both loopback-IsDocumented
