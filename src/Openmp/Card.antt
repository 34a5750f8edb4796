-- ===== src/Openmp/Card.antt =====
-- `main` of openmpmic/scif_mic.c: the card fetches the host's buffer, encrypts it, fetches it again,
-- decrypts what it has encrypted, and puts the result into the host's second buffer. Printing and
-- the reading of the clock are left out: nothing that follows depends on them.
use xeon_phi_kernel_integrat.Base.{ℕ, List, [], ◌∷◌}
use xeon_phi_kernel_integrat.Aes.Context.{CryptoTfm, aes_keysize_128}
use xeon_phi_kernel_integrat.Client.Library.{Scif}
use xeon_phi_kernel_integrat.Client.Step.{M, tear_down}
use xeon_phi_kernel_integrat.Client.Session.{Session}
use xeon_phi_kernel_integrat.Client.SetUp.{set_up}
use xeon_phi_kernel_integrat.Client.Crypt.{both_loops, run_main}

abbrev pub len : ℕ
len = 1073741824

abbrev pub sizearray : List ℕ
sizearray =
    64 ∷ 1024 ∷ 4096 ∷ 16384 ∷ 131072 ∷ 1048576 ∷ 134217728 ∷ 268435456 ∷ 536870912 ∷ 1073741824
    ∷ []

module _ (lib : Scif) where
  -- The first loop sends `outbuffer`, not the cipher text.
  unfoldable pub benchmark : CryptoTfm → Session → M lib.World (Unit {0})
  benchmark tfm s = both_loops lib sizearray tfm s s.outbuffer

  unfoldable pub main : CryptoTfm → List ℕ → lib.World → ℕ × lib.World
  main =
      run_main aes_keysize_128 (set_up lib 23968 len) benchmark
        (λ s. tear_down lib s.endpoint s.ptr len)
