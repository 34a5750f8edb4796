-- ===== src/Aes/RoundTrip.antt =====
-- `crypto_aes_set_key`, `aes_encrypt` and `aes_decrypt` of openmpmic/aes.c together.
use xeon_phi_kernel_integrat.Base.{
  ℕ, List, length, bit_or, ◌≡◌, ◌⊎◌, inl, inr, arith, ◌||◌, ◌==◌, true,
}
use xeon_phi_kernel_integrat.Aes.Context.{
  CryptoAesCtx, CryptoTfm, success, einval, crypto_tfm_ctx, crypto_tfm_res_bad_key_len,
}
use xeon_phi_kernel_integrat.Aes.KeySchedule.{
  crypto_aes_expand_key, crypto_aes_set_key, expand_enc, expand_dec,
}
use xeon_phi_kernel_integrat.Aes.KeySchedule.Words.{AllWords}
use xeon_phi_kernel_integrat.Aes.KeySchedule.Inverse.{expand_dec-IsInverseKey}
use xeon_phi_kernel_integrat.Aes.Cipher.{Block, aes_encrypt, aes_decrypt}
use xeon_phi_kernel_integrat.Aes.Cipher.Rounds.{IsBlock}
use xeon_phi_kernel_integrat.Aes.Cipher.Inverse.{IsKeyLength, decrypt_block-encrypt_block}

-- A context whose arrays have the size and the element type of the C declaration.
pub record IsContext (ctx : CryptoAesCtx) : Type 0 where
  pub enc_words : AllWords ctx.key_enc
  pub enc_size : length ctx.key_enc ≡ 60
  pub dec_size : length ctx.key_dec ≡ 60

accepts :
    {key_len : ℕ} → IsKeyLength key_len → (key_len == 16 || key_len == 24 || key_len == 32) ≡ true
accepts (inl e) = rw e
accepts (inr (inl e)) = rw e
accepts (inr (inr e)) = rw e

-- the context that a successful expansion leaves
abbrev expanded : CryptoAesCtx → List ℕ → ℕ → CryptoAesCtx
expanded ctx in_key key_len =
    let enc = expand_enc in_key key_len ctx.key_enc in
    record {
      key_enc = enc;
      key_dec = expand_dec in_key enc key_len ctx.key_dec;
      key_length = key_len;
    }

expand_key_success :
    (ctx : CryptoAesCtx) (in_key : List ℕ) {key_len : ℕ}
    → IsKeyLength key_len
    → crypto_aes_expand_key ctx in_key key_len ≡ (expanded ctx in_key key_len, success)
unfolding crypto_aes_expand_key
expand_key_success ctx in_key len = rw (accepts len, crypto_aes_expand_key)

pub set_key_success :
    (tfm : CryptoTfm) (in_key : List ℕ) {key_len : ℕ}
    → IsKeyLength key_len
    → crypto_aes_set_key tfm in_key key_len
      ≡ (record tfm { crt_ctx = expanded tfm.crt_ctx in_key key_len }, success)
unfolding crypto_aes_set_key crypto_tfm_ctx
set_key_success tfm in_key len =
    rw (expand_key_success tfm.crt_ctx in_key len, crypto_aes_set_key)
      (rw (expand_key_success tfm.crt_ctx in_key len))

-- Decryption undoes encryption: with a context that `crypto_aes_set_key` has filled from any key of
-- 16, 24 or 32 bytes, `aes_decrypt` gives back every block of four 32-bit words that `aes_encrypt`
-- was given.
pub aes_decrypt-aes_encrypt :
    (tfm : CryptoTfm) (in_key : List ℕ) (key_len : ℕ) (src : Block)
    → IsContext tfm.crt_ctx
    → IsKeyLength key_len
    → IsBlock src
    → let keyed = (crypto_aes_set_key tfm in_key key_len).0 in
      aes_decrypt keyed (aes_encrypt keyed src) ≡ src
unfolding aes_decrypt aes_encrypt crypto_tfm_ctx
aes_decrypt-aes_encrypt tfm in_key key_len src v len block = rw (set_key_success tfm in_key len) (
    decrypt_block-encrypt_block len
      (expand_dec-IsInverseKey in_key tfm.crt_ctx.key_enc tfm.crt_ctx.key_dec len v.enc_words
        (omega (arith, v.enc_size)) (omega (arith, v.dec_size)))
      src block)

-- `crypto_aes_set_key` returns 0 for exactly the key lengths 16, 24 and 32, and then leaves the
-- flags alone and stores the length; for every other length it returns `-EINVAL`, raises
-- `CRYPTO_TFM_RES_BAD_KEY_LEN` in the flags and leaves the context as it was.
pub crypto_aes_set_key_lem :
    (tfm : CryptoTfm) (in_key : List ℕ) (key_len : ℕ)
    → let (out, ret) = crypto_aes_set_key tfm in_key key_len in
      (IsKeyLength key_len
        × (ret ≡ success)
        × (out.crt_flags ≡ tfm.crt_flags)
        × (out.crt_ctx.key_length ≡ key_len))
      ⊎ ((¬ IsKeyLength key_len)
          × (ret ≡ einval)
          × (out.crt_flags ≡ bit_or tfm.crt_flags crypto_tfm_res_bad_key_len)
          × (out.crt_ctx ≡ tfm.crt_ctx))
unfolding crypto_aes_set_key crypto_aes_expand_key crypto_tfm_ctx
crypto_aes_set_key_lem tfm in_key key_len = ground arith
