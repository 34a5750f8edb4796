-- ===== src/Scaling/Card.antt =====
-- `main` of scaling/scif_mic.c and of scaling/scif_kernel.c, which differ in the port alone: one
-- round over the whole buffer of each kind.
use xeon_phi_kernel_integrat.Base.{ℕ, List}
use xeon_phi_kernel_integrat.Aes.Context.{CryptoTfm, aes_keysize_256}
use xeon_phi_kernel_integrat.Client.Library.{Scif}
use xeon_phi_kernel_integrat.Client.Step.{M, ◌>>◌, compute, tear_down}
use xeon_phi_kernel_integrat.Client.Session.{Session}
use xeon_phi_kernel_integrat.Client.SetUp.{set_up_registered}
use xeon_phi_kernel_integrat.Client.Crypt.{encrypt_pass, decrypt_pass, run_main}

abbrev pub half_len : ℕ
half_len = 536870912

module _ (lib : Scif) where
  unfoldable pub scaling_benchmark : CryptoTfm → Session → M lib.World (Unit {0})
  scaling_benchmark tfm s = do
    encrypt_pass lib (compute lib) tfm s s.tempbuffer half_len
    decrypt_pass lib (compute lib) tfm s half_len

  -- on the port of the host's program, or of its kernel module
  unfoldable pub main_on : ℕ → CryptoTfm → List ℕ → lib.World → ℕ × lib.World
  main_on port =
      run_main aes_keysize_256 (set_up_registered lib port half_len) scaling_benchmark
        (λ s. tear_down lib s.endpoint s.ptr half_len)

  unfoldable pub scaling_main : CryptoTfm → List ℕ → lib.World → ℕ × lib.World
  scaling_main = main_on 23968

  unfoldable pub scaling_kernel_main : CryptoTfm → List ℕ → lib.World → ℕ × lib.World
  scaling_kernel_main = main_on 23969
