-- ===== src/Aes/KeySchedule.antt =====
-- `crypto_aes_expand_key` and `crypto_aes_set_key` of openmpmic/aes.c. The two key arrays of the
-- context are lists of 60 words; the variable `t` of the macros goes along with `key_enc`.
pub mod Loops
pub mod Words
pub mod Inverse
use xeon_phi_kernel_integrat.Base.{
  ℕ, zero, suc, ◌+◌, ◌-◌, ◌*◌, ◌^◌, bit_and, bit_or, bit_xor, List, [], ◌∷◌, get_or, set, ◌||◌,
  ◌==◌, if◌then◌else◌,
}
use xeon_phi_kernel_integrat.Aes.Word.{u32, byte, ror32, imix_col, ls_box}
use xeon_phi_kernel_integrat.Aes.Context.{
  CryptoAesCtx, CryptoTfm, Status, success, einval, crypto_tfm_ctx, aes_keysize_128,
  aes_keysize_192, aes_keysize_256, crypto_tfm_res_bad_key_len,
}

unfoldable pub rco_tab : List ℕ
rco_tab = 1 ∷ 2 ∷ 4 ∷ 8 ∷ 16 ∷ 32 ∷ 64 ∷ 128 ∷ 27 ∷ 54 ∷ []

-- `__bswap_32`, by which aes.h defines `le32_to_cpu`
unfoldable pub le32_to_cpu : ℕ → ℕ
le32_to_cpu v = byte v 0 * 2 ^ 24 + byte v 1 * 2 ^ 16 + byte v 2 * 2 ^ 8 + byte v 3

-- Word `i` of the bytes of a buffer, as the little-endian processors of the card and its host
-- read it through a `__le32 *`.
unfoldable pub key_word : List ℕ → ℕ → ℕ
key_word in_key i =
    get_or in_key (4 * i) 0
    + get_or in_key (4 * i + 1) 0 * 2 ^ 8
    + get_or in_key (4 * i + 2) 0 * 2 ^ 16
    + get_or in_key (4 * i + 3) 0 * 2 ^ 24

-- `for (i = 0; i < n; ++i) body(i)`
unfoldable pub for_below {ℓ} : {S : Type ℓ} → ℕ → (ℕ → S → S) → S → S
for_below zero body s = s
for_below (suc n) body s = body n (for_below n body s)

-- what the macros `loop4`, `loop6` and `loop8` change
pub record Schedule : Type 0 where
  pub key_enc : List ℕ
  pub t : ℕ

-- `t ^= ctx->key_enc[from]; ctx->key_enc[to] = t;`
unfoldable pub chain : ℕ → ℕ → Schedule → Schedule
chain from to s =
    let t = bit_xor s.t (get_or s.key_enc from 0) in record { key_enc = set s.key_enc to t; t = t }

-- `t = ror32(t, 8); t = ls_box(t) ^ rco_tab[i];`
unfoldable pub sub_rotate : ℕ → Schedule → Schedule
sub_rotate i s = record {
  key_enc = s.key_enc;
  t = bit_xor (ls_box (ror32 s.t 8)) (get_or rco_tab i 0);
}

unfoldable pub loop4 : ℕ → Schedule → Schedule
loop4 i s0 =
    let s1 = chain (4 * i) (4 * i + 4) (sub_rotate i s0) in
    let s2 = chain (4 * i + 1) (4 * i + 5) s1 in
    let s3 = chain (4 * i + 2) (4 * i + 6) s2 in chain (4 * i + 3) (4 * i + 7) s3

unfoldable pub loop6 : ℕ → Schedule → Schedule
loop6 i s0 =
    let s1 = chain (6 * i) (6 * i + 6) (sub_rotate i s0) in
    let s2 = chain (6 * i + 1) (6 * i + 7) s1 in
    let s3 = chain (6 * i + 2) (6 * i + 8) s2 in
    let s4 = chain (6 * i + 3) (6 * i + 9) s3 in
    let s5 = chain (6 * i + 4) (6 * i + 10) s4 in chain (6 * i + 5) (6 * i + 11) s5

unfoldable pub loop8tophalf : ℕ → Schedule → Schedule
loop8tophalf i s0 =
    let s1 = chain (8 * i) (8 * i + 8) (sub_rotate i s0) in
    let s2 = chain (8 * i + 1) (8 * i + 9) s1 in
    let s3 = chain (8 * i + 2) (8 * i + 10) s2 in chain (8 * i + 3) (8 * i + 11) s3

-- `t = ctx->key_enc[8 * i + 4] ^ ls_box(t); ctx->key_enc[8 * i + 12] = t;`
unfoldable pub sub_chain : ℕ → Schedule → Schedule
sub_chain i s =
    let t = bit_xor (get_or s.key_enc (8 * i + 4) 0) (ls_box s.t) in
    record { key_enc = set s.key_enc (8 * i + 12) t; t = t }

unfoldable pub loop8 : ℕ → Schedule → Schedule
loop8 i s0 =
    let s1 = sub_chain i (loop8tophalf i s0) in
    let s2 = chain (8 * i + 5) (8 * i + 13) s1 in
    let s3 = chain (8 * i + 6) (8 * i + 14) s2 in chain (8 * i + 7) (8 * i + 15) s3

-- `ctx->key_enc[i] = le32_to_cpu(key[i]);`
unfoldable pub load_key : List ℕ → ℕ → List ℕ → List ℕ
load_key in_key i key_enc = set key_enc i (le32_to_cpu (key_word in_key i))

-- the three cases of `switch (key_len)`, from `key_enc` with its first four words
unfoldable pub case_128 : List ℕ → Schedule
case_128 k4 = for_below 10 loop4 (record { key_enc = k4; t = get_or k4 3 0 })

unfoldable pub case_192 : List ℕ → List ℕ → Schedule
case_192 in_key k4 =
    let k6 = load_key in_key 5 (load_key in_key 4 k4) in
    for_below 8 loop6 (record { key_enc = k6; t = get_or k6 5 0 })

unfoldable pub case_256 : List ℕ → List ℕ → Schedule
case_256 in_key k4 =
    let k8 = load_key in_key 7 (load_key in_key 6 (load_key in_key 5 (load_key in_key 4 k4))) in
    loop8tophalf 6 (for_below 6 loop8 (record { key_enc = k8; t = get_or k8 7 0 }))

-- the stores to `key_enc`: the first four words, and the `switch`
unfoldable pub expand_enc : List ℕ → ℕ → List ℕ → List ℕ
expand_enc in_key key_len key_enc =
    let k4 = for_below 4 (load_key in_key) key_enc in
    if key_len == aes_keysize_128
    then (case_128 k4).key_enc
    else if key_len == aes_keysize_192
    then (case_192 in_key k4).key_enc
    else if key_len == aes_keysize_256
    then (case_256 in_key k4).key_enc
    else k4

-- `j = key_len + 24 - (i & ~3) + (i & 3)`, in 32 bits
unfoldable pub dec_index : ℕ → ℕ → ℕ
dec_index key_len i = u32 (u32 (key_len + 24 + 2 ^ 32 - bit_and i 0xfffffffc) + bit_and i 3)

-- The stores to `key_dec`: the assignments before the `switch`, those after it, and the last loop,
-- which runs from 4.
unfoldable pub expand_dec : List ℕ → List ℕ → ℕ → List ℕ → List ℕ
expand_dec in_key key_enc key_len key_dec =
    let last =
      for_below 4 (λ n. λ (d : List ℕ). set d (key_len + 24 + n) (le32_to_cpu (key_word in_key n)))
        key_dec in
    let first =
      for_below 4 (λ n. λ (d : List ℕ). set d n (get_or key_enc (key_len + 24 + n) 0)) last in
    for_below (key_len + 24 - 4)
      (λ n. λ (d : List ℕ). set d (dec_index key_len (n + 4)) (imix_col (get_or key_enc (n + 4) 0)))
      first

unfoldable pub crypto_aes_expand_key : CryptoAesCtx → List ℕ → ℕ → CryptoAesCtx × Status
crypto_aes_expand_key ctx in_key key_len =
    if key_len == aes_keysize_128 || key_len == aes_keysize_192 || key_len == aes_keysize_256
    then (let key_enc = expand_enc in_key key_len ctx.key_enc in
        (
          record {
            key_enc = key_enc;
            key_dec = expand_dec in_key key_enc key_len ctx.key_dec;
            key_length = key_len;
          },
          success,
        ))
    else (ctx, einval)

unfoldable pub crypto_aes_set_key : CryptoTfm → List ℕ → ℕ → CryptoTfm × Status
crypto_aes_set_key tfm in_key key_len =
    let (ctx, ret) = crypto_aes_expand_key (crypto_tfm_ctx tfm) in_key key_len in
    elim ret [
      | success ↦ (record tfm { crt_ctx = ctx }, success)
      | einval ↦ (
        record tfm { crt_flags = bit_or tfm.crt_flags crypto_tfm_res_bad_key_len; crt_ctx = ctx },
        einval,
      )
    ]
