-- ===== src/Fips/KeyExpansion.antt =====
-- The `key_enc` of `crypto_aes_expand_key` in openmpmic/aes.c, and the expanded key of FIPS-197.
use xeon_phi_kernel_integrat.Base.{ℕ, ◌<◌, List, length, get_or, ◌≡◌}
use xeon_phi_kernel_integrat.Aes.KeySchedule.{Schedule, le32_to_cpu, key_word}
use xeon_phi_kernel_integrat.Aes.KeySchedule.Words.{AllWords}

module _ (in_key : List ℕ) where
  -- word `n` of the key, as the code loads it
  abbrev pub given : ℕ → ℕ
  given n = le32_to_cpu (key_word in_key n)

  -- The first `n` words of the key are loaded.
  record IsLoaded (n : ℕ) (xs : List ℕ) : Type 0 where
    size : length xs ≡ 60
    words : AllWords xs
    front : (i : ℕ) → i < n → get_or xs i 0 ≡ given i
