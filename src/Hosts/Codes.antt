-- ===== src/Hosts/Codes.antt =====
-- The exit codes of the programs of Hosts/Exchange.
use xeon_phi_kernel_integrat.Base.{ℕ, ◌≡◌, ◌⊎◌, inl, inr, refl}
use xeon_phi_kernel_integrat.Client.Library.{Scif}
use xeon_phi_kernel_integrat.Client.Step.{Exit, value, returned, exit_code}
use xeon_phi_kernel_integrat.Client.Host.{Host}
use xeon_phi_kernel_integrat.Client.Rules.{Failure}
use xeon_phi_kernel_integrat.Client.Checked.{Clean, Ends}

-- The exit code is 0, and each call from `w` on has succeeded, or it is 1, and a failed call has just
-- left the state of the world.
abbrev pub IsCode : (lib : Scif) → lib.World → ℕ × lib.World → Type 0
IsCode lib w (c, w') = ((c ≡ 0) × Clean lib w w') ⊎ ((c ≡ 1) × Failure lib w')

pub coded :
    (lib : Scif) {A : Type 0} (w : lib.World) (o : Exit A × lib.World)
    → Ends lib w o
    → IsCode lib w (exit_code o)
unfolding exit_code
coded lib w (value a, w') c = inl (refl, c)
coded lib w (returned c, w') f = inr f
