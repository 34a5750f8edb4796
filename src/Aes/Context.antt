-- ===== src/Aes/Context.antt =====
-- The types of aes.h and crypto.h that the cipher works on.
use xeon_phi_kernel_integrat.Base.{ℕ, List}

-- `struct crypto_aes_ctx`: two arrays of 60 words, and the key's length in bytes
pub record CryptoAesCtx : Type 0 where
  pub key_enc : List ℕ
  pub key_dec : List ℕ
  pub key_length : ℕ

-- `struct crypto_tfm`, with the context that `crypto_tfm_ctx` finds behind it
pub record CryptoTfm : Type 0 where
  pub crt_flags : ℕ
  pub crt_ctx : CryptoAesCtx

-- what the `int` functions return: 0 or `-EINVAL`
pub data Status : Type 0 where
  success : Status
  einval : Status

-- `crypto_tfm_ctx`
unfoldable pub crypto_tfm_ctx : CryptoTfm → CryptoAesCtx
crypto_tfm_ctx tfm = tfm.crt_ctx

abbrev pub aes_keysize_128 : ℕ
aes_keysize_128 = 16

abbrev pub aes_keysize_192 : ℕ
aes_keysize_192 = 24

abbrev pub aes_keysize_256 : ℕ
aes_keysize_256 = 32

abbrev pub crypto_tfm_res_bad_key_len : ℕ
crypto_tfm_res_bad_key_len = 0x00200000

-- `AES_MAX_KEYLENGTH_U32`
abbrev pub aes_max_keylength_u32 : ℕ
aes_max_keylength_u32 = 60
