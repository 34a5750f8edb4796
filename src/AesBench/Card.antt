-- ===== src/AesBench/Card.antt =====
-- `main` of aes_bench/scif_mic.c: as openmpmic/scif_mic.c, with loops over the blocks that run on one
-- core, and with fifteen rounds for the six smaller sizes and one for the four larger ones.
use xeon_phi_kernel_integrat.Base.{ℕ, List, [], ◌∷◌}
use xeon_phi_kernel_integrat.Aes.Context.{CryptoTfm, aes_keysize_128}
use xeon_phi_kernel_integrat.Client.Library.{Scif}
use xeon_phi_kernel_integrat.Client.Step.{M, ◌>>◌, for_sizes, compute_in_order, tear_down}
use xeon_phi_kernel_integrat.Client.Session.{Session}
use xeon_phi_kernel_integrat.Client.SetUp.{set_up}
use xeon_phi_kernel_integrat.Client.Crypt.{encrypt_pass, decrypt_pass, run_main}
use xeon_phi_kernel_integrat.Openmp.Card.{len}

-- `sizearray[0]` to `sizearray[5]`
abbrev pub small_sizes : List ℕ
small_sizes = 64 ∷ 1024 ∷ 4096 ∷ 16384 ∷ 131072 ∷ 1048576 ∷ []

-- `sizearray[6]` to `sizearray[9]`
abbrev pub large_sizes : List ℕ
large_sizes = 134217728 ∷ 268435456 ∷ 536870912 ∷ 1073741824 ∷ []

module _ (lib : Scif) where
  unfoldable pub single_benchmark : CryptoTfm → Session → M lib.World (Unit {0})
  single_benchmark tfm s = do
    for_sizes 15 small_sizes (encrypt_pass lib (compute_in_order lib) tfm s s.outbuffer)
    for_sizes 1 large_sizes (encrypt_pass lib (compute_in_order lib) tfm s s.outbuffer)
    for_sizes 15 small_sizes (decrypt_pass lib (compute_in_order lib) tfm s)
    for_sizes 1 large_sizes (decrypt_pass lib (compute_in_order lib) tfm s)

  unfoldable pub single_main : CryptoTfm → List ℕ → lib.World → ℕ × lib.World
  single_main =
      run_main aes_keysize_128 (set_up lib 23954 len) single_benchmark
        (λ s. tear_down lib s.endpoint s.ptr len)
