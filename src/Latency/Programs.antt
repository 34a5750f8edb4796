-- ===== src/Latency/Programs.antt =====
-- `main` of latency/sendrecv/scif_host.c and of latency/sendrecv/scif_mic.c. The clock and printing are
-- left out.
use xeon_phi_kernel_integrat.Base.{ℕ, zero, suc}
use xeon_phi_kernel_integrat.Client.Library.{Scif}
use xeon_phi_kernel_integrat.Client.Step.{M, ◌>>=◌, ◌>>◌, effect, open_connection, exit_code}
use xeon_phi_kernel_integrat.Client.Host.{random_buffer, listen}
use xeon_phi_kernel_integrat.Echo.Exchange.{take_memory}
use xeon_phi_kernel_integrat.Latency.PingPong.{loops}

module _ (lib : Scif) where
  -- The two loops, by the rounds to go: neither looks at what its calls return.
  unfoldable pub host_rounds : ℕ → ℕ → ℕ → lib.World → lib.World
  host_rounds zero new_endpoint buffer w = w
  host_rounds (suc left) new_endpoint buffer w =
      host_rounds left new_endpoint buffer
        (lib.scif_recv_count new_endpoint buffer 1
          (lib.scif_send_count new_endpoint buffer 1 w).1).1

  unfoldable pub card_rounds : ℕ → ℕ → ℕ → lib.World → lib.World
  card_rounds zero endpoint buffer w = w
  card_rounds (suc left) endpoint buffer w =
      card_rounds left endpoint buffer
        (lib.scif_send_count endpoint buffer 1 (lib.scif_recv_count endpoint buffer 1 w).1).1

  unfoldable pub sendrecv_host : M lib.World (Unit {0})
  sendrecv_host = do
    ends ← listen lib 23968
    buffer ← take_memory lib 1
    effect (random_buffer lib 1 buffer)
    effect (host_rounds loops ends.1 buffer)
    effect (lib.free buffer)
    effect (lib.scif_close ends.0)

  unfoldable pub sendrecv_host_main : lib.World → ℕ × lib.World
  sendrecv_host_main w = exit_code (sendrecv_host w)

  unfoldable pub sendrecv_card : M lib.World (Unit {0})
  sendrecv_card = do
    endpoint ← open_connection lib 23968
    buffer ← take_memory lib 1
    effect (card_rounds loops endpoint buffer)
    effect (lib.free buffer)
    effect (lib.scif_close endpoint)

  unfoldable pub sendrecv_card_main : lib.World → ℕ × lib.World
  sendrecv_card_main w = exit_code (sendrecv_card w)
