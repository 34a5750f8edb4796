-- ===== src/Openmp/Host.antt =====
-- `main` of openmpmic/scif_host.c: the host fills a buffer, sends its offset and that of a second
-- buffer to the card, waits, and compares the two. Printing is left out.
use xeon_phi_kernel_integrat.Base.{ℕ, true, false}
use xeon_phi_kernel_integrat.Client.Library.{Scif}
use xeon_phi_kernel_integrat.Client.Step.{
  M, ◌>>=◌, ◌>>◌, value, returned, finish, obtain, effect, allocate, clear_buffer, exit_code,
}
use xeon_phi_kernel_integrat.Client.Host.{
  Host, host, random_buffer, listen, share, unshare, same_bytes,
}
use xeon_phi_kernel_integrat.Openmp.Card.{len}

module _ (lib : Scif) where
  -- from `scif_open` to the second `scif_send`
  unfoldable pub host_set_up : M lib.World Host
  host_set_up = do
    ends ← listen lib 23968
    ptr ← allocate lib len
    return_ptr ← allocate lib len
    clear_buffer lib len return_ptr
    effect (random_buffer lib len ptr)
    share lib (host ends.0 ends.1 ptr return_ptr) len
    finish (host ends.0 ends.1 ptr return_ptr)

  -- `scif_recv`, which waits for the card
  unfoldable pub wait : Host → M lib.World ℕ
  wait h = obtain (lib.scif_recv h.new_endpoint)

  -- `if (memcmp(ptr, return_ptr, len) != 0) { …; return 1; }`
  unfoldable pub compare_buffers : Host → M lib.World (Unit {0})
  compare_buffers h w = elim (same_bytes len h.ptr h.return_ptr (lib.local_memory w)) [
    | true ↦ (value tt, w)
    | false ↦ (returned 1, w)
  ]

  -- from the first `scif_unregister` to the end
  unfoldable pub host_end : Host → M lib.World (Unit {0})
  host_end h = do
    unshare lib h len
    effect (lib.scif_close h.endpoint)
    effect (lib.scif_close h.new_endpoint)
    compare_buffers h
    effect (λ w. lib.free h.return_ptr (lib.free h.ptr w))

  unfoldable pub host_main : lib.World → ℕ × lib.World
  host_main w = exit_code ((host_set_up >>= λ h. wait h >>= λ _. host_end h) w)
