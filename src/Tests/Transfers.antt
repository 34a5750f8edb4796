-- ===== src/Tests/Transfers.antt =====
-- The theorems on throughput and latency/readwrite at a concrete library and memory.
use xeon_phi_kernel_integrat.Client.Step.{tear_down}
use xeon_phi_kernel_integrat.Client.SetUp.{set_up_registered}
use xeon_phi_kernel_integrat.Client.Whole.{Finished}
use xeon_phi_kernel_integrat.Client.Transfer.{link_set_up, link_set_up_return}
use xeon_phi_kernel_integrat.Client.TransferLaws.{IsKept, IsMoved}
use xeon_phi_kernel_integrat.Openmp.Card.{len}
use xeon_phi_kernel_integrat.Openmp.Kernel.{kernel_len}
use xeon_phi_kernel_integrat.Throughput.Card.{
  throughput_loops, throughput_main, throughput_kernel_main,
}
use xeon_phi_kernel_integrat.Throughput.Run.{throughput_main_lem, throughput_kernel_main_lem}
use xeon_phi_kernel_integrat.Latency.Card.{
  page_len, readwrite_loops, readwrite_main, readwrite_session, readwrite_kernel_main,
}
use xeon_phi_kernel_integrat.Latency.CardRun.{
  IsByteMoved, readwrite_main_lem, readwrite_kernel_main_lem,
}
use xeon_phi_kernel_integrat.Tests.Loopback.{loopback, loopback-IsDocumented}
use xeon_phi_kernel_integrat.Tests.Programs.{both}

throughput_main_lem_example :
    Finished loopback
      (IsKept loopback)
      (link_set_up loopback 23962 len)
      (λ l. throughput_loops loopback l l.remote_ptr)
      (λ l. tear_down loopback l.endpoint l.ptr len)
      both
      (throughput_main loopback both)
throughput_main_lem_example = throughput_main_lem loopback both loopback-IsDocumented

throughput_kernel_main_lem_example :
    Finished loopback
      (λ s. IsMoved loopback kernel_len s.0 s.1)
      (link_set_up_return loopback 23969 kernel_len)
      (λ s. throughput_loops loopback s.0 s.1)
      (λ s. tear_down loopback s.0.endpoint s.0.ptr kernel_len)
      both
      (throughput_kernel_main loopback both)
throughput_kernel_main_lem_example = throughput_kernel_main_lem loopback both loopback-IsDocumented

readwrite_main_lem_example :
    Finished loopback
      (IsKept loopback)
      (link_set_up loopback 23962 page_len)
      (λ l. readwrite_loops loopback l l.remote_ptr)
      (λ l. tear_down loopback l.endpoint l.ptr page_len)
      both
      (readwrite_main loopback both)
readwrite_main_lem_example = readwrite_main_lem loopback both loopback-IsDocumented

readwrite_kernel_main_lem_example :
    Finished loopback
      (IsByteMoved loopback)
      (set_up_registered loopback 23969 page_len)
      (readwrite_session loopback)
      (λ s. tear_down loopback s.endpoint s.ptr page_len)
      both
      (readwrite_kernel_main loopback both)
readwrite_kernel_main_lem_example = readwrite_kernel_main_lem loopback both loopback-IsDocumented
