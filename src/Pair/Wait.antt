-- ===== src/Pair/Wait.antt =====
-- The wait of the hosts that receive through a pointer that was never set.
use xeon_phi_kernel_integrat.Base.{ℕ, ◌+◌, ◌≤◌, Bool, true, false, ◌≡◌, ◌⊎◌, inr, refl}
use xeon_phi_kernel_integrat.Client.Library.{Scif, IsDocumented}
use xeon_phi_kernel_integrat.Client.Step.{M, Exit, value, returned, ◌>>◌, check}
use xeon_phi_kernel_integrat.Client.Host.{Host}
use xeon_phi_kernel_integrat.Client.Rules.{Failure}
use xeon_phi_kernel_integrat.Client.HostLaws.{IsSame}
use xeon_phi_kernel_integrat.Hosts.Exchange.{report_end}
use xeon_phi_kernel_integrat.Hosts.Run.{report_end-IsSame}

-- The eight bytes at `a` lie outside the host's two buffers.
abbrev pub IsAway : ℕ → Host → ℕ → Type 0
IsAway a h n =
    ((a + 8 ≤ h.ptr) ⊎ (h.ptr + n ≤ a)) × ((a + 8 ≤ h.return_ptr) ⊎ (h.return_ptr + n ≤ a))

-- the end of the wait, and what follows
abbrev pub received_end : (lib : Scif) → ℕ → Host → ℕ → M lib.World Bool
received_end lib placeholder h n =
    check (lib.scif_recv_at h.new_endpoint placeholder 8) >> report_end lib h n

pub after_wait :
    (lib : Scif) (h : Host) (n : ℕ) (o : Bool × lib.World)
    → IsDocumented lib
    → (o.0 ≡ false → Failure lib o.1)
    → IsSame n h.ptr h.return_ptr (lib.local_memory o.1)
    → let (r, w') =
        (let (r, w1) : Exit (Unit {0}) × lib.World =
            (let (ok, w1) = o in elim ok [ true ↦ (value tt, w1) | false ↦ (returned 1, w1) ]) in
          elim r as (λ _. Exit Bool × lib.World) [
            | value _ ↦ report_end lib h n w1
            | returned c ↦ (returned c, w1)
          ]) in
      (r ≡ value true) ⊎ ((r ≡ returned 1) × Failure lib w')
after_wait lib h n (true, w) doc f same = report_end-IsSame lib h n w doc same
after_wait lib h n (false, w) doc f same = inr (refl, f refl)
