-- ===== src/Openmp/Local.antt =====
-- `main` of openmpmic/mic.c and of scaling/mic.c: the loops of the card's program without the host.
-- Nothing is transferred, and only the three allocations can fail.
use xeon_phi_kernel_integrat.Base.{ℕ, ◌+◌, List}
use xeon_phi_kernel_integrat.Aes.Context.{CryptoTfm, aes_keysize_128, aes_keysize_256}
use xeon_phi_kernel_integrat.Memory.{aes_encrypt_at, aes_decrypt_at}
use xeon_phi_kernel_integrat.Client.Library.{Scif}
use xeon_phi_kernel_integrat.Client.Step.{
  M, ◌>>=◌, ◌>>◌, finish, effect, allocate, clear_buffer, compute, for_sizes,
}
use xeon_phi_kernel_integrat.Client.Crypt.{run_main}
use xeon_phi_kernel_integrat.Openmp.Card.{sizearray, len}

-- the local variables of `main` that the two loops use
pub record Buffers : Type 0 where
  pub ptr : ℕ
  pub tempbuffer : ℕ
  pub outbuffer : ℕ

abbrev pub buffers : ℕ → ℕ → ℕ → Buffers
buffers ptr tempbuffer outbuffer = record {
  ptr = ptr;
  tempbuffer = tempbuffer;
  outbuffer = outbuffer;
}

abbrev pub local_half_len : ℕ
local_half_len = 536870912

module _ (lib : Scif) where
  -- the two parallel loops
  unfoldable pub local_encrypt : CryptoTfm → Buffers → ℕ → M lib.World (Unit {0})
  local_encrypt tfm b size =
      compute lib size (λ k. aes_encrypt_at tfm (b.tempbuffer + k) (b.ptr + k))

  unfoldable pub local_decrypt : CryptoTfm → Buffers → ℕ → M lib.World (Unit {0})
  local_decrypt tfm b size =
      compute lib size (λ k. aes_decrypt_at tfm (b.outbuffer + k) (b.tempbuffer + k))

  unfoldable pub local_benchmark : CryptoTfm → Buffers → M lib.World (Unit {0})
  local_benchmark tfm b = do
    for_sizes 15 sizearray (local_encrypt tfm b)
    for_sizes 15 sizearray (local_decrypt tfm b)

  -- the three allocations and `memset`
  unfoldable pub local_set_up : ℕ → M lib.World Buffers
  local_set_up n = do
    ptr ← allocate lib n
    clear_buffer lib n ptr
    tempbuffer ← allocate lib n
    outbuffer ← allocate lib n
    finish (buffers ptr tempbuffer outbuffer)

  unfoldable pub local_tear_down : Buffers → M lib.World (Unit {0})
  local_tear_down b = effect (λ w. lib.free b.outbuffer (lib.free b.tempbuffer (lib.free b.ptr w)))

  unfoldable pub local_main : CryptoTfm → List ℕ → lib.World → ℕ × lib.World
  local_main = run_main aes_keysize_128 (local_set_up len) local_benchmark local_tear_down

  -- the loops of scaling/mic.c: one round over the whole buffer
  unfoldable pub local_scaling : CryptoTfm → Buffers → M lib.World (Unit {0})
  local_scaling tfm b = do local_encrypt tfm b local_half_len; local_decrypt tfm b local_half_len

  unfoldable pub local_scaling_main : CryptoTfm → List ℕ → lib.World → ℕ × lib.World
  local_scaling_main =
      run_main aes_keysize_256 (local_set_up local_half_len) local_scaling local_tear_down
