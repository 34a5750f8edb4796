-- ===== src/Throughput/Run.antt =====
-- The runs of throughput/scif_mic.c and throughput/scif_kernel.c.
use xeon_phi_kernel_integrat.Base.{ℕ}
use xeon_phi_kernel_integrat.Client.Library.{Scif, IsDocumented}
use xeon_phi_kernel_integrat.Client.Step.{tear_down}
use xeon_phi_kernel_integrat.Client.Rules.{weaken, Failure, Post}
use xeon_phi_kernel_integrat.Client.Safe.{IsSafe-tear_down}
use xeon_phi_kernel_integrat.Client.Whole.{Finished, finished}
use xeon_phi_kernel_integrat.Client.Transfer.{Link, run_plain, link_set_up, link_set_up_return}
use xeon_phi_kernel_integrat.Client.TransferLaws.{
  IsKept, IsMoved-IsKept, IsMoved, sizes-IsMoved, IsSafe-link_set_up, IsSafe-link_set_up_return,
}
use xeon_phi_kernel_integrat.Openmp.Card.{len}
use xeon_phi_kernel_integrat.Openmp.Kernel.{kernel_len}
use xeon_phi_kernel_integrat.Openmp.Benchmark.{later, below}
use xeon_phi_kernel_integrat.Throughput.Card.{
  throughput_loops, throughput_main, throughput_kernel_main,
}

loops-IsMoved :
    (lib : Scif) (l : Link) (target : ℕ) (w : lib.World)
    → IsDocumented lib
    → Post lib (Failure lib) (IsMoved lib len l target w) (throughput_loops lib l target w)
unfolding throughput_loops
loops-IsMoved lib l target w doc = sizes-IsMoved lib doc l target w 14 64 later below

-- The program of throughput/scif_mic.c as a whole: with a SCIF library that keeps to its
-- documentation, it returns 0 after loops that have left each byte of the host's memory as it was,
-- or it returns 1, in a state of the world that a failed call of the library has just left.
pub throughput_main_lem :
    (lib : Scif) (w : lib.World)
    → IsDocumented lib
    → Finished lib
        (IsKept lib)
        (link_set_up lib 23962 len)
        (λ l. throughput_loops lib l l.remote_ptr)
        (λ l. tear_down lib l.endpoint l.ptr len)
        w
        (throughput_main lib w)
unfolding throughput_main run_plain
throughput_main_lem lib w doc =
    finished lib (IsKept lib) (link_set_up lib 23962 len) (λ l. throughput_loops lib l l.remote_ptr)
      (λ l. tear_down lib l.endpoint l.ptr len) w (IsSafe-link_set_up lib 23962 len w)
      (λ l w1 e.
        weaken lib (IsMoved lib len l l.remote_ptr w1) (IsKept lib l w1)
          (throughput_loops lib l l.remote_ptr w1) (IsMoved-IsKept lib len l w1)
          (loops-IsMoved lib l l.remote_ptr w1 doc))
      (λ l w'. IsSafe-tear_down lib l.endpoint l.ptr len w')

-- The program of throughput/scif_kernel.c as a whole: with a SCIF library that keeps to its
-- documentation, it returns 0 after loops that have copied the peer's `kernel_len` bytes at
-- `remote_ptr` to `return_ptr` and left the rest of the peer's memory as it was, or it returns 1,
-- in a state of the world that a failed call of the library has just left.
pub throughput_kernel_main_lem :
    (lib : Scif) (w : lib.World)
    → IsDocumented lib
    → Finished lib
        (λ s. IsMoved lib kernel_len s.0 s.1)
        (link_set_up_return lib 23969 kernel_len)
        (λ s. throughput_loops lib s.0 s.1)
        (λ s. tear_down lib s.0.endpoint s.0.ptr kernel_len)
        w
        (throughput_kernel_main lib w)
unfolding throughput_kernel_main run_plain
throughput_kernel_main_lem lib w doc =
    finished lib (λ s. IsMoved lib kernel_len s.0 s.1) (link_set_up_return lib 23969 kernel_len)
      (λ s. throughput_loops lib s.0 s.1) (λ s. tear_down lib s.0.endpoint s.0.ptr kernel_len) w
      (IsSafe-link_set_up_return lib 23969 kernel_len w)
      (λ s w1 e. loops-IsMoved lib s.0 s.1 w1 doc)
      (λ s w'. IsSafe-tear_down lib s.0.endpoint s.0.ptr kernel_len w')
