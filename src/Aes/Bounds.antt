-- ===== src/Aes/Bounds.antt =====
-- The range of the words that openmpmic/aes.c computes.
use xeon_phi_kernel_integrat.Base.{ℕ, ◌+◌, ◌-◌, ◌^◌, ◌<◌, List, arith}
use xeon_phi_kernel_integrat.Bits.{xor-lt}
use xeon_phi_kernel_integrat.Aes.Word.{star_x, imix_col}
use xeon_phi_kernel_integrat.Aes.Word.Linear.{rotated, rotate_8, rotate_16, rotate_24}
use xeon_phi_kernel_integrat.Aes.Tables.Laws.{
  fl_tab0-lt, fl_tab1-lt, fl_tab2-lt, fl_tab3-lt, il_tab0-lt, il_tab1-lt, il_tab2-lt, il_tab3-lt,
}
use xeon_phi_kernel_integrat.Aes.Context.{CryptoTfm, crypto_tfm_ctx}
use xeon_phi_kernel_integrat.Aes.KeySchedule.{expand_dec, dec_index}
use xeon_phi_kernel_integrat.Aes.KeySchedule.Loops.{for_below_keeps}
use xeon_phi_kernel_integrat.Aes.KeySchedule.Words.{AllWords, set-AllWords, le32_to_cpu-lt}
use xeon_phi_kernel_integrat.Aes.Cipher.{
  Block, encl_column, decl_column, encl_round, decl_round, encrypt_block, decrypt_block,
  aes_encrypt, aes_decrypt,
}
use xeon_phi_kernel_integrat.Aes.Cipher.Rounds.{IsBlock}

star_x-lt : (x : ℕ) → star_x x < 2 ^ 32
unfolding star_x
star_x-lt x = xor-lt 32 _ _ (omega arith) (omega arith)

rotated-lt : (s x : ℕ) → rotated s x < 2 ^ 32
rotated-lt s x = xor-lt 32 _ _ (grind arith) (omega arith)

imix_col-lt : (x : ℕ) → imix_col x < 2 ^ 32
unfolding imix_col
imix_col-lt x =
    xor-lt 32 _ _ (xor-lt 32 _ _ (xor-lt 32 _ _ (star_x-lt _) (star_x-lt _)) (star_x-lt _)) (
      xor-lt 32 _ _ (xor-lt 32 _ _ (rw rotate_8 (rotated-lt 8 _)) (rw rotate_16 (rotated-lt 16 _)))
        (rw rotate_24 (rotated-lt 24 _)))

-- The stores to `key_dec` are words, whatever the array held before.
pub expand_dec-AllWords :
    (in_key enc : List ℕ) (key_len : ℕ) (dec : List ℕ)
    → AllWords enc
    → AllWords dec
    → AllWords (expand_dec in_key enc key_len dec)
unfolding expand_dec
expand_dec-AllWords in_key enc key_len dec he hd =
    for_below_keeps AllWords _
      (λ i s p k. set-AllWords s (dec_index key_len (i + 4)) _ (imix_col-lt _) k (p k))
      (key_len + 24 - 4) _
      (for_below_keeps AllWords _ (λ i s p k. set-AllWords s i _ (he (key_len + 24 + i)) k (p k)) 4
        _
        (for_below_keeps AllWords _
          (λ i s p k. set-AllWords s (key_len + 24 + i) _ (le32_to_cpu-lt _) k (p k)) 4 dec hd))

encl_column-lt :
    (b : Block) (key : List ℕ) (kp n : ℕ) → AllWords key → encl_column b key kp n < 2 ^ 32
unfolding encl_column
encl_column-lt b key kp n h =
    xor-lt 32 _ _
      (xor-lt 32 _ _ (xor-lt 32 _ _ (xor-lt 32 _ _ (fl_tab0-lt _) (fl_tab1-lt _)) (fl_tab2-lt _))
        (fl_tab3-lt _))
      (h (kp + n))

decl_column-lt :
    (b : Block) (key : List ℕ) (kp n : ℕ) → AllWords key → decl_column b key kp n < 2 ^ 32
unfolding decl_column
decl_column-lt b key kp n h =
    xor-lt 32 _ _
      (xor-lt 32 _ _ (xor-lt 32 _ _ (xor-lt 32 _ _ (il_tab0-lt _) (il_tab1-lt _)) (il_tab2-lt _))
        (il_tab3-lt _))
      (h (kp + n))

pub aes_encrypt-IsBlock :
    (tfm : CryptoTfm) (src : Block) → AllWords tfm.crt_ctx.key_enc → IsBlock (aes_encrypt tfm src)
unfolding aes_encrypt crypto_tfm_ctx encrypt_block encl_round
aes_encrypt-IsBlock tfm src h = (
  encl_column-lt _ _ _ 0 h,
  encl_column-lt _ _ _ 1 h,
  encl_column-lt _ _ _ 2 h,
  encl_column-lt _ _ _ 3 h,
)

pub aes_decrypt-IsBlock :
    (tfm : CryptoTfm) (src : Block) → AllWords tfm.crt_ctx.key_dec → IsBlock (aes_decrypt tfm src)
unfolding aes_decrypt crypto_tfm_ctx decrypt_block decl_round
aes_decrypt-IsBlock tfm src h = (
  decl_column-lt _ _ _ 0 h,
  decl_column-lt _ _ _ 1 h,
  decl_column-lt _ _ _ 2 h,
  decl_column-lt _ _ _ 3 h,
)
