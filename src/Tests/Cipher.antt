-- ===== src/Tests/Cipher.antt =====
-- Runs of the cipher on the vectors of FIPS-197, and the theorems at concrete keys and blocks.
-- `crypto_aes_expand_key` turns the bytes of each key word round, so the keys are written turned
-- round here.
use xeon_phi_kernel_integrat.Base.{
  ℕ, zero, suc, ◌+◌, ◌/◌, ◌^◌, ◌<◌, List, [], ◌∷◌, ◌≡◌, ◌⊎◌, inl, refl, arith, replicate, get_or,
  bit_or,
}
use xeon_phi_kernel_integrat.Aes.Word.{byte, entry, ls_box, ror32}
use xeon_phi_kernel_integrat.Aes.Context.{
  CryptoTfm, success, einval, crypto_tfm_ctx, crypto_tfm_res_bad_key_len,
}
use xeon_phi_kernel_integrat.Aes.KeySchedule.{
  crypto_aes_expand_key, crypto_aes_set_key, expand_enc, case_128, for_below, load_key, le32_to_cpu,
  key_word, loop4, chain, sub_rotate, rco_tab,
}
use xeon_phi_kernel_integrat.Aes.Cipher.{
  Block, aes_encrypt, aes_decrypt, encrypt_block, whiten, enc_pair, enc_round, enc_column,
  encl_round, encl_column,
}
use xeon_phi_kernel_integrat.Aes.Cipher.Rounds.{IsBlock}
use xeon_phi_kernel_integrat.Aes.Tables.Ft.{ft_tab0, ft_tab1, ft_tab2, ft_tab3}
use xeon_phi_kernel_integrat.Aes.Tables.Fl.{fl_tab0, fl_tab1, fl_tab2, fl_tab3}
use xeon_phi_kernel_integrat.Aes.Cipher.Inverse.{IsKeyLength}
use xeon_phi_kernel_integrat.Aes.RoundTrip.{
  IsContext, aes_decrypt-aes_encrypt, crypto_aes_set_key_lem,
}
use xeon_phi_kernel_integrat.Fips.Cipher.{cipher}
use xeon_phi_kernel_integrat.Fips.Refine.{aes_encrypt-cipher}

-- a transform just allocated and cleared
abbrev pub blank : CryptoTfm
blank = record {
  crt_flags = 0;
  crt_ctx = record { key_enc = replicate 60 0; key_dec = replicate 60 0; key_length = 0 };
}

-- The key of FIPS-197 C.1, each word of four bytes turned round.
abbrev pub key_128 : List ℕ
key_128 = 3 ∷ 2 ∷ 1 ∷ 0 ∷ 7 ∷ 6 ∷ 5 ∷ 4 ∷ 11 ∷ 10 ∷ 9 ∷ 8 ∷ 15 ∷ 14 ∷ 13 ∷ 12 ∷ []

-- The plain text of FIPS-197 C.1, as the words that a little-endian processor loads.
abbrev plain : Block
plain = record { w0 = 0x33221100; w1 = 0x77665544; w2 = 0xbbaa9988; w3 = 0xffeeddcc }

abbrev fips_cipher : Block
fips_cipher = record { w0 = 0xd8e0c469; w1 = 0x30047b6a; w2 = 0x80b7cdd8; w3 = 0x5ac5b470 }

abbrev pub keyed : CryptoTfm
keyed = (crypto_aes_set_key blank key_128 16).0

pub zeros-AllWords : (n i : ℕ) → get_or (replicate n 0) i 0 < 2 ^ 32
zeros-AllWords zero i = omega arith
zeros-AllWords (suc n) zero = omega arith
zeros-AllWords (suc n) (suc i) = zeros-AllWords n i

pub blank-IsContext : IsContext blank.crt_ctx
blank-IsContext = record { enc_words = zeros-AllWords 60; enc_size = refl; dec_size = refl }

plain-IsBlock : IsBlock plain
plain-IsBlock = (omega arith, omega arith, omega arith, omega arith)

-- The cipher text of FIPS-197 C.1.
encrypt_fips_vector : aes_encrypt keyed plain ≡ fips_cipher
unfolding aes_encrypt crypto_aes_set_key crypto_aes_expand_key crypto_tfm_ctx expand_enc case_128
    for_below load_key le32_to_cpu key_word loop4 chain sub_rotate rco_tab ls_box ror32 byte entry
    encrypt_block whiten enc_pair enc_round enc_column encl_round encl_column ft_tab0 ft_tab1
    ft_tab2 ft_tab3 fl_tab0 fl_tab1 fl_tab2 fl_tab3
encrypt_fips_vector = refl

aes_decrypt-aes_encrypt_example : aes_decrypt keyed (aes_encrypt keyed plain) ≡ plain
aes_decrypt-aes_encrypt_example =
    aes_decrypt-aes_encrypt blank key_128 16 plain blank-IsContext (inl refl) plain-IsBlock

-- A key of 17 bytes is refused.
crypto_aes_set_key_lem_example :
    let (out, ret) = crypto_aes_set_key blank key_128 17 in
    (IsKeyLength 17 × (ret ≡ success) × (out.crt_flags ≡ 0) × (out.crt_ctx.key_length ≡ 17))
    ⊎ ((¬ IsKeyLength 17)
        × (ret ≡ einval)
        × (out.crt_flags ≡ bit_or 0 crypto_tfm_res_bad_key_len)
        × (out.crt_ctx ≡ blank.crt_ctx))
crypto_aes_set_key_lem_example = crypto_aes_set_key_lem blank key_128 17

keyed_length : IsKeyLength keyed.crt_ctx.key_length
unfolding crypto_aes_set_key crypto_aes_expand_key crypto_tfm_ctx
keyed_length = inl refl

aes_encrypt-cipher_example :
    aes_encrypt keyed plain ≡ cipher (keyed.crt_ctx.key_length / 4 + 6) keyed.crt_ctx.key_enc plain
aes_encrypt-cipher_example = aes_encrypt-cipher keyed plain keyed_length
