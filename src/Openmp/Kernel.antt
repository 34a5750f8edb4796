-- ===== src/Openmp/Kernel.antt =====
-- `main` of openmpmic/scif_kernel.c, which works with the kernel module of the host in place of the
-- host's program: another port, and `tempbuffer` registered and sent.
use xeon_phi_kernel_integrat.Base.{ℕ, ◌*◌, List}
use xeon_phi_kernel_integrat.Aes.Context.{CryptoTfm, aes_keysize_128}
use xeon_phi_kernel_integrat.Client.Library.{Scif}
use xeon_phi_kernel_integrat.Client.Step.{M, tear_down}
use xeon_phi_kernel_integrat.Client.Session.{Session}
use xeon_phi_kernel_integrat.Client.SetUp.{set_up_registered}
use xeon_phi_kernel_integrat.Client.Crypt.{both_loops, run_main}
use xeon_phi_kernel_integrat.Openmp.Card.{sizearray}

abbrev pub kernel_len : ℕ
kernel_len = 262144 * 4096

module _ (lib : Scif) where
  unfoldable pub kernel_benchmark : CryptoTfm → Session → M lib.World (Unit {0})
  kernel_benchmark tfm s = both_loops lib sizearray tfm s s.tempbuffer

  unfoldable pub kernel_main : CryptoTfm → List ℕ → lib.World → ℕ × lib.World
  kernel_main =
      run_main aes_keysize_128 (set_up_registered lib 23969 kernel_len) kernel_benchmark
        (λ s. tear_down lib s.endpoint s.ptr kernel_len)
