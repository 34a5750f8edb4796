-- ===== src/Fips/Expansion.antt =====
-- The key expansion of FIPS-197, 5.2. A word is the number whose lowest byte is the word's first.
use xeon_phi_kernel_integrat.Base.{
  ℕ, zero, suc, ◌-◌, ◌/◌, ◌%◌, bit_xor, List, get_or, ltb, ◌&&◌, ◌==◌, if◌then◌else◌,
}
use xeon_phi_kernel_integrat.Aes.Word.{byte}
use xeon_phi_kernel_integrat.Aes.Word.Columns.{join}
use xeon_phi_kernel_integrat.Fips.Field.{xtime, s_box}

unfoldable pub sub_word : ℕ → ℕ
sub_word w = join (s_box (byte w 0)) (s_box (byte w 1)) (s_box (byte w 2)) (s_box (byte w 3))

unfoldable pub rot_word : ℕ → ℕ
rot_word w = join (byte w 1) (byte w 2) (byte w 3) (byte w 0)

-- x to the power j, which is the first byte of Rcon[j + 1]
unfoldable pub rcon : ℕ → ℕ
rcon zero = 1
rcon (suc j) = xtime (rcon j)

-- `temp` for word i, where the word before is `previous`
unfoldable pub temp : ℕ → ℕ → ℕ → ℕ
temp nk i previous =
    if i % nk == 0
    then bit_xor (sub_word (rot_word previous)) (rcon (i / nk - 1))
    else if ltb 6 nk && (i % nk == 4)
    then sub_word previous
    else previous

-- word i of the expanded key, from the words before it
unfoldable pub key_step : ℕ → List ℕ → ℕ → ℕ
key_step nk key i = bit_xor (get_or key (i - nk) 0) (temp nk i (get_or key (i - 1) 0))
