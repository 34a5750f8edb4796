-- ===== src/Throughput/Card.antt =====
-- `main` of throughput/scif_mic.c and of throughput/scif_kernel.c: fifteen transfers of each size from
-- the host, then fifteen of each size back.
use xeon_phi_kernel_integrat.Base.{ℕ}
use xeon_phi_kernel_integrat.Client.Library.{Scif}
use xeon_phi_kernel_integrat.Client.Step.{M, ◌>>◌, for_sizes, tear_down}
use xeon_phi_kernel_integrat.Client.Transfer.{
  Link, run_plain, link_set_up, link_set_up_return, read_pass, write_pass,
}
use xeon_phi_kernel_integrat.Openmp.Card.{len, sizearray}
use xeon_phi_kernel_integrat.Openmp.Kernel.{kernel_len}

module _ (lib : Scif) where
  unfoldable pub throughput_loops : Link → ℕ → M lib.World (Unit {0})
  throughput_loops l target = do
    for_sizes 15 sizearray (read_pass lib l)
    for_sizes 15 sizearray (write_pass lib l target)

  unfoldable pub throughput_main : lib.World → ℕ × lib.World
  throughput_main =
      run_plain (link_set_up lib 23962 len) (λ l. throughput_loops l l.remote_ptr)
        (λ l. tear_down lib l.endpoint l.ptr len)

  unfoldable pub throughput_kernel_main : lib.World → ℕ × lib.World
  throughput_kernel_main =
      run_plain (link_set_up_return lib 23969 kernel_len) (λ s. throughput_loops s.0 s.1)
        (λ s. tear_down lib s.0.endpoint s.0.ptr kernel_len)
