-- ===== src/Hosts/Exchange.antt =====
-- `main` of aes_bench/scif_host.c and scaling/scif_host.c, which differ in the port and the length,
-- and of throughput/scif_host.c and latency/readwrite/scif_host.c, which differ in the length.
use xeon_phi_kernel_integrat.Base.{ℕ, Bool}
use xeon_phi_kernel_integrat.Client.Library.{Scif}
use xeon_phi_kernel_integrat.Client.Step.{
  M, ◌>>=◌, ◌>>◌, value, finish, check, effect, tolerated, allocate, register, exit_code,
}
use xeon_phi_kernel_integrat.Client.Host.{
  Host, host, random_buffer, listen, share, unshare, same_bytes,
}
use xeon_phi_kernel_integrat.Openmp.Card.{len}
use xeon_phi_kernel_integrat.Scaling.Card.{half_len}
use xeon_phi_kernel_integrat.Latency.Card.{page_len}

module _ (lib : Scif) where
  -- from `scif_open` to the second `scif_send`
  unfoldable pub report_set_up : ℕ → ℕ → M lib.World Host
  report_set_up port n = do
    ends ← listen lib port
    ptr ← allocate lib n
    return_ptr ← allocate lib n
    effect (random_buffer lib n ptr)
    share lib (host ends.0 ends.1 ptr return_ptr) n
    finish (host ends.0 ends.1 ptr return_ptr)

  -- `memcmp`, whose result decides which of two lines is printed
  unfoldable pub report : Host → ℕ → M lib.World Bool
  report h n w = (value (same_bytes n h.ptr h.return_ptr (lib.local_memory w)), w)

  -- from the first `scif_unregister` to the end, with what it has printed
  unfoldable pub report_end : Host → ℕ → M lib.World Bool
  report_end h n = do
    unshare lib h n
    same ← report h n
    effect (lib.sleep 2)
    effect (lib.scif_close h.endpoint)
    effect (lib.scif_close h.new_endpoint)
    finish same

  -- `placeholder` is what the memory held: the source never sets it.
  unfoldable pub report_main : ℕ → ℕ → ℕ → M lib.World Bool
  report_main port n placeholder = do
    h ← report_set_up port n
    check (lib.scif_recv_at h.new_endpoint placeholder 8)
    report_end h n

  unfoldable pub single_host_main : ℕ → lib.World → ℕ × lib.World
  single_host_main placeholder w = exit_code (report_main 23954 len placeholder w)

  unfoldable pub scaling_host_main : ℕ → lib.World → ℕ × lib.World
  scaling_host_main placeholder w = exit_code (report_main 23968 half_len placeholder w)

  -- from the registration of the buffer to the end
  unfoldable pub serve : ℕ → ℕ → ℕ → ℕ → M lib.World (Unit {0})
  serve endpoint new_endpoint ptr n = do
    register lib new_endpoint ptr n
    effect (lib.sleep 1)
    check (lib.scif_send new_endpoint ptr)
    check (lib.scif_recv_at new_endpoint ptr 8)
    check (tolerated (lib.scif_unregister new_endpoint ptr n))
    effect (lib.sleep 1)
    effect (lib.scif_close endpoint)
    effect (lib.scif_close new_endpoint)

  unfoldable pub serve_main : ℕ → M lib.World (Unit {0})
  serve_main n = do ends ← listen lib 23962; ptr ← allocate lib n; serve ends.0 ends.1 ptr n

  unfoldable pub throughput_host_main : lib.World → ℕ × lib.World
  throughput_host_main w = exit_code (serve_main len w)

  unfoldable pub readwrite_host_main : lib.World → ℕ × lib.World
  readwrite_host_main w = exit_code (serve_main page_len w)
