-- ===== src/Latency/CardRun.antt =====
-- The runs of latency/readwrite/scif_mic.c and latency/readwrite/scif_kernel.c.
use xeon_phi_kernel_integrat.Base.{ℕ}
use xeon_phi_kernel_integrat.Client.Library.{Scif, IsDocumented}
use xeon_phi_kernel_integrat.Client.Step.{tear_down}
use xeon_phi_kernel_integrat.Client.Session.{Session}
use xeon_phi_kernel_integrat.Client.SetUp.{set_up_registered}
use xeon_phi_kernel_integrat.Client.Rules.{weaken, Failure, Post}
use xeon_phi_kernel_integrat.Client.Safe.{IsSafe-tear_down}
use xeon_phi_kernel_integrat.Client.Whole.{Finished, finished, IsSafe-set_up_registered}
use xeon_phi_kernel_integrat.Client.Transfer.{Link, link, run_plain, link_set_up}
use xeon_phi_kernel_integrat.Client.TransferLaws.{
  IsKept, IsMoved-IsKept, IsMoved, rounds-IsMoved, IsSafe-link_set_up,
}
use xeon_phi_kernel_integrat.Latency.Card.{
  page_len, readwrite_loops, readwrite_main, readwrite_session, readwrite_kernel_main,
}

loops-IsMoved :
    (lib : Scif) (l : Link) (target : ℕ) (w : lib.World)
    → IsDocumented lib
    → Post lib (Failure lib) (IsMoved lib 1 l target w) (readwrite_loops lib l target w)
unfolding readwrite_loops
loops-IsMoved lib l target w doc = rounds-IsMoved lib doc l target w 49998 1

-- The program of latency/readwrite/scif_mic.c as a whole: with a SCIF library that keeps to its
-- documentation, it returns 0 after loops that have left each byte of the host's memory as it was,
-- or it returns 1, in a state of the world that a failed call of the library has just left.
pub readwrite_main_lem :
    (lib : Scif) (w : lib.World)
    → IsDocumented lib
    → Finished lib
        (IsKept lib)
        (link_set_up lib 23962 page_len)
        (λ l. readwrite_loops lib l l.remote_ptr)
        (λ l. tear_down lib l.endpoint l.ptr page_len)
        w
        (readwrite_main lib w)
unfolding readwrite_main run_plain
readwrite_main_lem lib w doc =
    finished lib (IsKept lib) (link_set_up lib 23962 page_len)
      (λ l. readwrite_loops lib l l.remote_ptr) (λ l. tear_down lib l.endpoint l.ptr page_len) w
      (IsSafe-link_set_up lib 23962 page_len w)
      (λ l w1 e.
        weaken lib (IsMoved lib 1 l l.remote_ptr w1) (IsKept lib l w1)
          (readwrite_loops lib l l.remote_ptr w1) (IsMoved-IsKept lib 1 l w1)
          (loops-IsMoved lib l l.remote_ptr w1 doc))
      (λ l w'. IsSafe-tear_down lib l.endpoint l.ptr page_len w')

-- what the loops of scif_kernel.c do to the peer's memory
abbrev pub IsByteMoved : (lib : Scif) → Session → lib.World → lib.World → Type 0
IsByteMoved lib s = IsMoved lib 1 (link s.endpoint s.ptr s.remote_ptr) s.return_ptr

session-IsByteMoved :
    (lib : Scif) (s : Session) (w : lib.World)
    → IsDocumented lib
    → Post lib (Failure lib) (IsByteMoved lib s w) (readwrite_session lib s w)
unfolding readwrite_session
session-IsByteMoved lib s w doc =
    loops-IsMoved lib (link s.endpoint s.ptr s.remote_ptr) s.return_ptr w doc

-- The program of latency/readwrite/scif_kernel.c as a whole: with a SCIF library that keeps to its
-- documentation, it returns 0 after loops that have copied the peer's byte at `remote_ptr` to
-- `return_ptr` and left the rest of the peer's memory as it was, or it returns 1, in a state of the
-- world that a failed call of the library has just left.
pub readwrite_kernel_main_lem :
    (lib : Scif) (w : lib.World)
    → IsDocumented lib
    → Finished lib
        (IsByteMoved lib)
        (set_up_registered lib 23969 page_len)
        (readwrite_session lib)
        (λ s. tear_down lib s.endpoint s.ptr page_len)
        w
        (readwrite_kernel_main lib w)
unfolding readwrite_kernel_main run_plain
readwrite_kernel_main_lem lib w doc =
    finished lib (IsByteMoved lib) (set_up_registered lib 23969 page_len) (readwrite_session lib)
      (λ s. tear_down lib s.endpoint s.ptr page_len) w
      (IsSafe-set_up_registered lib 23969 page_len w) (λ s w1 e. session-IsByteMoved lib s w1 doc)
      (λ s w'. IsSafe-tear_down lib s.endpoint s.ptr page_len w')
