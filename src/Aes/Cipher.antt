-- ===== src/Aes/Cipher.antt =====
-- `aes_encrypt` and `aes_decrypt` of openmpmic/aes.c, on the four words of a block. The pointer
-- `kp` into a key array is an index, which a round returns four further on.
pub mod Rounds
pub mod Inverse
use xeon_phi_kernel_integrat.Base.{
  ℕ, zero, suc, ◌+◌, bit_and, bit_xor, List, get_or, ltb, if◌then◌else◌,
}
use xeon_phi_kernel_integrat.Aes.Word.{byte, entry}
use xeon_phi_kernel_integrat.Aes.Context.{CryptoTfm, crypto_tfm_ctx}
use xeon_phi_kernel_integrat.Aes.Tables.Ft.{ft_tab0, ft_tab1, ft_tab2, ft_tab3}
use xeon_phi_kernel_integrat.Aes.Tables.Fl.{fl_tab0, fl_tab1, fl_tab2, fl_tab3}
use xeon_phi_kernel_integrat.Aes.Tables.It.{it_tab0, it_tab1, it_tab2, it_tab3}
use xeon_phi_kernel_integrat.Aes.Tables.Il.{il_tab0, il_tab1, il_tab2, il_tab3}

-- `uint32_t b[4]`
pub record Block : Type 0 where
  pub w0 : ℕ
  pub w1 : ℕ
  pub w2 : ℕ
  pub w3 : ℕ

-- `b[n]`
abbrev pub word : Block → ℕ → ℕ
word b zero = b.w0
word b (suc zero) = b.w1
word b (suc (suc zero)) = b.w2
word b (suc (suc (suc n))) = b.w3

-- A loop `for (n = 0; n < 4; n++) b[n] = f(n)`.
abbrev pub build : (ℕ → ℕ) → Block
build f = record { w0 = f 0; w1 = f 1; w2 = f 2; w3 = f 3 }

-- what the loop of `enc_round` stores in `b0[n]`
unfoldable pub enc_column : Block → List ℕ → ℕ → ℕ → ℕ
enc_column b1 key kp n =
    let var0 = byte (word b1 n) 0 in
    let var1 = byte (word b1 (bit_and (n + 1) 3)) 1 in
    let var2 = byte (word b1 (bit_and (n + 2) 3)) 2 in
    let var3 = byte (word b1 (bit_and (n + 3) 3)) 3 in
    bit_xor
      (bit_xor (bit_xor (bit_xor (entry ft_tab0 var0) (entry ft_tab1 var1)) (entry ft_tab2 var2))
        (entry ft_tab3 var3))
      (get_or key (kp + n) 0)

unfoldable pub enc_round : Block → List ℕ → ℕ → Block × ℕ
enc_round b1 key kp = (build (enc_column b1 key kp), kp + 4)

unfoldable pub encl_column : Block → List ℕ → ℕ → ℕ → ℕ
encl_column b1 key kp n =
    bit_xor
      (bit_xor
        (bit_xor
          (bit_xor (entry fl_tab0 (byte (word b1 n) 0))
            (entry fl_tab1 (byte (word b1 (bit_and (n + 1) 3)) 1)))
          (entry fl_tab2 (byte (word b1 (bit_and (n + 2) 3)) 2)))
        (entry fl_tab3 (byte (word b1 (bit_and (n + 3) 3)) 3)))
      (get_or key (kp + n) 0)

unfoldable pub encl_round : Block → List ℕ → ℕ → Block
encl_round b1 key kp = build (encl_column b1 key kp)

-- `enc_round(b1, b0, &kp); enc_round(b0, b1, &kp);`
unfoldable pub enc_pair : List ℕ → Block × ℕ → Block × ℕ
unfolding enc_round
enc_pair key (b, kp) = let (b1, kp1) = enc_round b key kp in enc_round b1 key kp1

-- `b0[n] = src[n] ^ key[n]`
unfoldable pub whiten : Block → List ℕ → Block
whiten src key = build (λ n. bit_xor (word src n) (get_or key n 0))

-- the rounds of `aes_encrypt`, for the array `key_enc` and `key_len`
unfoldable pub encrypt_block : List ℕ → ℕ → Block → Block
unfolding enc_pair enc_round encl_round whiten
encrypt_block key key_len src =
    let s0 : Block × ℕ = (whiten src key, 4) in
    let s1 = if ltb 24 key_len then enc_pair key s0 else s0 in
    let s2 = if ltb 16 key_len then enc_pair key s1 else s1 in
    let s3 = enc_pair key (enc_pair key (enc_pair key (enc_pair key s2))) in
    let (b1, kp) = enc_round s3.0 key s3.1 in encl_round b1 key kp

unfoldable pub aes_encrypt : CryptoTfm → Block → Block
unfolding encrypt_block crypto_tfm_ctx
aes_encrypt tfm src = let ctx = crypto_tfm_ctx tfm in encrypt_block ctx.key_enc ctx.key_length src

unfoldable pub dec_column : Block → List ℕ → ℕ → ℕ → ℕ
dec_column b1 key kp n =
    let var0 = byte (word b1 n) 0 in
    let var1 = byte (word b1 (bit_and (n + 3) 3)) 1 in
    let var2 = byte (word b1 (bit_and (n + 2) 3)) 2 in
    let var3 = byte (word b1 (bit_and (n + 1) 3)) 3 in
    bit_xor
      (bit_xor (bit_xor (bit_xor (entry it_tab0 var0) (entry it_tab1 var1)) (entry it_tab2 var2))
        (entry it_tab3 var3))
      (get_or key (kp + n) 0)

unfoldable pub dec_round : Block → List ℕ → ℕ → Block × ℕ
dec_round b1 key kp = (build (dec_column b1 key kp), kp + 4)

unfoldable pub decl_column : Block → List ℕ → ℕ → ℕ → ℕ
decl_column b1 key kp n =
    bit_xor
      (bit_xor
        (bit_xor
          (bit_xor (entry il_tab0 (byte (word b1 n) 0))
            (entry il_tab1 (byte (word b1 (bit_and (n + 3) 3)) 1)))
          (entry il_tab2 (byte (word b1 (bit_and (n + 2) 3)) 2)))
        (entry il_tab3 (byte (word b1 (bit_and (n + 1) 3)) 3)))
      (get_or key (kp + n) 0)

unfoldable pub decl_round : Block → List ℕ → ℕ → Block
decl_round b1 key kp = build (decl_column b1 key kp)

-- `dec_round(b1, b0, &kp); dec_round(b0, b1, &kp);`
unfoldable pub dec_pair : List ℕ → Block × ℕ → Block × ℕ
unfolding dec_round
dec_pair key (b, kp) = let (b1, kp1) = dec_round b key kp in dec_round b1 key kp1

-- the rounds of `aes_decrypt`, for the array `key_dec` and `key_len`
unfoldable pub decrypt_block : List ℕ → ℕ → Block → Block
unfolding dec_pair dec_round decl_round whiten
decrypt_block key key_len src =
    let s0 : Block × ℕ = (whiten src key, 4) in
    let s1 = if ltb 24 key_len then dec_pair key s0 else s0 in
    let s2 = if ltb 16 key_len then dec_pair key s1 else s1 in
    let s3 = dec_pair key (dec_pair key (dec_pair key (dec_pair key s2))) in
    let (b1, kp) = dec_round s3.0 key s3.1 in decl_round b1 key kp

unfoldable pub aes_decrypt : CryptoTfm → Block → Block
unfolding decrypt_block crypto_tfm_ctx
aes_decrypt tfm src = let ctx = crypto_tfm_ctx tfm in decrypt_block ctx.key_dec ctx.key_length src
