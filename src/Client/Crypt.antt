-- ===== src/Client/Crypt.antt =====
-- The two kinds of round that the programs of the card are made of, as openmpmic/scif_mic.c writes
-- them, and the frame of their `main`.
use xeon_phi_kernel_integrat.Base.{ℕ, ◌+◌, List}
use xeon_phi_kernel_integrat.Aes.Context.{CryptoTfm}
use xeon_phi_kernel_integrat.Aes.KeySchedule.{crypto_aes_set_key}
use xeon_phi_kernel_integrat.Memory.{Memory, aes_encrypt_at, aes_decrypt_at}
use xeon_phi_kernel_integrat.Client.Library.{Scif}
use xeon_phi_kernel_integrat.Client.Step.{M, ◌>>=◌, ◌>>◌, check, compute, for_sizes, exit_code}
use xeon_phi_kernel_integrat.Client.Session.{Session}

-- `run` is the loop over the blocks, `compute` or `compute_in_order`.
module _ (lib : Scif) (run : ℕ → (ℕ → Memory → Memory) → M lib.World (Unit {0})) where
  -- one round of the loop that encrypts, which writes the buffer at `sent` to the host
  unfoldable pub encrypt_pass : CryptoTfm → Session → ℕ → ℕ → M lib.World (Unit {0})
  encrypt_pass tfm s sent size = do
    check (lib.scif_readfrom s.endpoint s.ptr size s.remote_ptr)
    run size (λ k. aes_encrypt_at tfm (s.tempbuffer + k) (s.ptr + k))
    check (lib.scif_writeto s.endpoint sent size s.return_ptr)

  -- one round of the loop that decrypts
  unfoldable pub decrypt_pass : CryptoTfm → Session → ℕ → M lib.World (Unit {0})
  decrypt_pass tfm s size = do
    check (lib.scif_readfrom s.endpoint s.ptr size s.remote_ptr)
    run size (λ k. aes_decrypt_at tfm (s.outbuffer + k) (s.tempbuffer + k))
    check (lib.scif_writeto s.endpoint s.outbuffer size s.return_ptr)

-- `main`: the connection and the buffers, the loops, the end. The key and the context are what
-- `malloc` left in them; `key_len` is the length that `main` names and also stores in `ctx->key_length`,
-- as `crypto_aes_set_key` does again.
unfoldable pub run_main :
    {W S : Type 0}
    → ℕ
    → M W S
    → (CryptoTfm → S → M W (Unit {0}))
    → (S → M W (Unit {0}))
    → CryptoTfm
    → List ℕ
    → W
    → ℕ × W
run_main key_len set_up benchmark tear_down tfm in_key w =
    exit_code
      ((set_up >>= λ s. benchmark (crypto_aes_set_key tfm in_key key_len).0 s >> tear_down s) w)

-- the two loops over the sizes, of which the first writes the buffer at `sent` to the host
unfoldable pub both_loops : (lib : Scif) → List ℕ → CryptoTfm → Session → ℕ → M lib.World (Unit {0})
both_loops lib sizes tfm s sent = do
  for_sizes 15 sizes (encrypt_pass lib (compute lib) tfm s sent)
  for_sizes 15 sizes (decrypt_pass lib (compute lib) tfm s)
