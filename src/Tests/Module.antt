-- ===== src/Tests/Module.antt =====
-- The theorems on the kernel modules over a kernel with two endpoints.
use xeon_phi_kernel_integrat.Base.{ℕ, ◌≡◌, ◌≢◌}
use xeon_phi_kernel_integrat.Module.Start.{unequal, scif_end, scif_start, readwrite_start}
use xeon_phi_kernel_integrat.Module.Left.{IsLeaking}
use xeon_phi_kernel_integrat.Module.Balance.{IsSettled, scif_start_lem, readwrite_start_lem}
use xeon_phi_kernel_integrat.Module.Kmalloc.{latency_end, latency_start}
use xeon_phi_kernel_integrat.Module.KmallocBalance.{IsBalanced, latency_start_lem}
use xeon_phi_kernel_integrat.Tests.Kernel.{toy, toy-IsHeap, toy_kmalloc-IsHeap, toy-IsScif, unused}

scif_start_lem_example :
    IsSettled toy toy-IsHeap (toy-IsHeap.owns unused) (scif_start toy 8192 unused)
    × IsLeaking toy toy-IsScif unused (scif_end toy) (scif_start toy 8192 unused)
scif_start_lem_example = scif_start_lem toy toy-IsHeap toy-IsScif 8192 unused

readwrite_start_lem_example :
    IsSettled toy toy-IsHeap (toy-IsHeap.owns unused) (readwrite_start toy unused)
    × ((readwrite_start toy unused).0 ≢ unequal)
    × IsLeaking toy toy-IsScif unused (scif_end toy) (readwrite_start toy unused)
readwrite_start_lem_example = readwrite_start_lem toy toy-IsHeap toy-IsScif unused

latency_start_lem_example :
    IsBalanced toy toy_kmalloc-IsHeap unused
      (λ d end. (x : ℕ) → toy_kmalloc-IsHeap.owns end x ≡ toy_kmalloc-IsHeap.owns unused x)
      (latency_end toy)
      (latency_start toy unused)
    × IsLeaking toy toy-IsScif unused (latency_end toy) (latency_start toy unused)
latency_start_lem_example = latency_start_lem toy toy_kmalloc-IsHeap toy-IsScif unused
