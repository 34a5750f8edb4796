-- ===== src/Latency/Card.antt =====
-- `main` of latency/readwrite/scif_mic.c and of latency/readwrite/scif_kernel.c: transfers of one byte
-- from the host, then as many back.
use xeon_phi_kernel_integrat.Base.{ℕ}
use xeon_phi_kernel_integrat.Client.Library.{Scif}
use xeon_phi_kernel_integrat.Client.Step.{M, ◌>>◌, repeat, tear_down}
use xeon_phi_kernel_integrat.Client.Session.{Session}
use xeon_phi_kernel_integrat.Client.SetUp.{set_up_registered}
use xeon_phi_kernel_integrat.Client.Transfer.{
  Link, link, run_plain, link_set_up, read_pass, write_pass,
}

abbrev pub page_len : ℕ
page_len = 4096

module _ (lib : Scif) where
  -- `for (int j=1; j<loops; j++)` with `loops` 50000
  unfoldable pub readwrite_loops : Link → ℕ → M lib.World (Unit {0})
  readwrite_loops l target = do
    repeat 49999 (read_pass lib l 1)
    repeat 49999 (write_pass lib l target 1)

  unfoldable pub readwrite_main : lib.World → ℕ × lib.World
  readwrite_main =
      run_plain (link_set_up lib 23962 page_len) (λ l. readwrite_loops l l.remote_ptr)
        (λ l. tear_down lib l.endpoint l.ptr page_len)

  -- the loops with the variables of scif_kernel.c
  unfoldable pub readwrite_session : Session → M lib.World (Unit {0})
  readwrite_session s = readwrite_loops (link s.endpoint s.ptr s.remote_ptr) s.return_ptr

  unfoldable pub readwrite_kernel_main : lib.World → ℕ × lib.World
  readwrite_kernel_main =
      run_plain (set_up_registered lib 23969 page_len) readwrite_session
        (λ s. tear_down lib s.endpoint s.ptr page_len)
