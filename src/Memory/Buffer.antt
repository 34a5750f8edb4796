-- ===== src/Memory/Buffer.antt =====
-- The parallel loops of openmpmic/scif_mic.c over whole buffers.
use xeon_phi_kernel_integrat.Base.{ℕ, ◌+◌, ◌-◌, ◌%◌, ◌<◌, List, ◌≡◌, ap, arith, ◌∙◌}
use xeon_phi_kernel_integrat.Aes.Context.{CryptoTfm}
use xeon_phi_kernel_integrat.Aes.KeySchedule.{crypto_aes_set_key, expand_enc}
use xeon_phi_kernel_integrat.Aes.KeySchedule.Words.{AllWords, expand_enc-IsFront}
use xeon_phi_kernel_integrat.Aes.Cipher.{Block, aes_encrypt, aes_decrypt}
use xeon_phi_kernel_integrat.Aes.Cipher.Rounds.{IsBlock}
use xeon_phi_kernel_integrat.Aes.Cipher.Inverse.{IsKeyLength}
use xeon_phi_kernel_integrat.Aes.Bounds.{
  expand_dec-AllWords, aes_encrypt-IsBlock, aes_decrypt-IsBlock,
}
use xeon_phi_kernel_integrat.Aes.RoundTrip.{IsContext, set_key_success, aes_decrypt-aes_encrypt}
use xeon_phi_kernel_integrat.Memory.{
  Memory, aes_encrypt_at, aes_decrypt_at, parallel_for, load_block,
}
use xeon_phi_kernel_integrat.Memory.Laws.{IsBytes, load_block_bytes, load_block-IsBlock}
use xeon_phi_kernel_integrat.Memory.Loop.{IsOrder, Apart, parallel_for-IsBytes, parallel_for_blocks}
use xeon_phi_kernel_integrat.Memory.Order.{same_output}

-- the bodies of the two loops
abbrev pub encrypt_round : CryptoTfm → ℕ → ℕ → ℕ → Memory → Memory
encrypt_round tfm out inp k = aes_encrypt_at tfm (out + k) (inp + k)

abbrev pub decrypt_round : CryptoTfm → ℕ → ℕ → ℕ → Memory → Memory
decrypt_round tfm out inp k = aes_decrypt_at tfm (out + k) (inp + k)

-- The parallel loop that encrypts a buffer has one result: with 32-bit words in `key_enc` and
-- buffers that do not overlap, any two orders of its rounds leave the same byte at every address.
pub encrypt_order :
    (tfm : CryptoTfm) (n out inp : ℕ) (order order' : List ℕ) (m : Memory)
    → AllWords tfm.crt_ctx.key_enc
    → n % 16 ≡ 0
    → Apart n out inp
    → IsOrder n order
    → IsOrder n order'
    → IsBytes m
    → (x : ℕ)
    → parallel_for order (encrypt_round tfm out inp) m x
      ≡ parallel_for order' (encrypt_round tfm out inp) m x
unfolding aes_encrypt_at
encrypt_order tfm n out inp order order' m words whole apart ord ord' bytes x =
    same_output (aes_encrypt tfm) (λ b _. aes_encrypt-IsBlock tfm b words) n out inp whole apart
      order order' m ord ord' bytes x

-- what `crypto_aes_set_key` leaves in the two key arrays
pub keyed_words :
    (tfm : CryptoTfm) (in_key : List ℕ) {key_len : ℕ}
    → IsContext tfm.crt_ctx
    → AllWords tfm.crt_ctx.key_dec
    → IsKeyLength key_len
    → let keyed = (crypto_aes_set_key tfm in_key key_len).0 in
      AllWords keyed.crt_ctx.key_enc × AllWords keyed.crt_ctx.key_dec
keyed_words tfm in_key {key_len} v dec len =
    rw (set_key_success tfm in_key len)
      (enc, expand_dec-AllWords in_key _ key_len tfm.crt_ctx.key_dec enc dec)
  where
    enc : AllWords (expand_enc in_key key_len tfm.crt_ctx.key_enc)
    enc =
        (expand_enc-IsFront in_key tfm.crt_ctx.key_enc len v.enc_words
          (omega (arith, v.enc_size))).words

-- two buffers that agree block by block agree byte by byte
pub bytes_of_blocks :
    (m m' : Memory) (a a' n : ℕ)
    → n % 16 ≡ 0
    → IsBytes m
    → IsBytes m'
    → ((k : ℕ) → k % 16 ≡ 0 → k < n → load_block m (a + k) ≡ load_block m' (a' + k))
    → (i : ℕ) → i < n
    → m (a + i) ≡ m' (a' + i)
bytes_of_blocks m m' a a' n whole h h' blocks i lt =
    ap m {x = a + i} {y = a + (i - i % 16) + i % 16} (omega arith)
    ∙ load_block_bytes m m' (a + (i - i % 16)) (a' + (i - i % 16)) h h'
        (blocks (i - i % 16) (omega arith) (omega arith)) (i % 16) (omega arith)
    ∙ ap m' {x = a' + (i - i % 16) + i % 16} {y = a' + i} (omega arith)

-- The two parallel loops give a buffer back: with a context that `crypto_aes_set_key` has filled
-- from a key of 16, 24 or 32 bytes, encrypting `n` bytes, a multiple of 16, from `ptr` to
-- `tempbuffer` and decrypting them from there to `outbuffer` leaves at `outbuffer` the bytes that
-- stood at `ptr`, in whatever order either loop makes its rounds, where `tempbuffer` overlaps
-- neither of the other two.
pub decrypt-encrypt_buffer :
    (tfm : CryptoTfm) (in_key : List ℕ) (key_len : ℕ) (n ptr tempbuffer outbuffer : ℕ)
    (order order' : List ℕ) (m : Memory)
    → IsContext tfm.crt_ctx
    → AllWords tfm.crt_ctx.key_dec
    → IsKeyLength key_len
    → n % 16 ≡ 0
    → Apart n tempbuffer ptr
    → Apart n outbuffer tempbuffer
    → IsOrder n order
    → IsOrder n order'
    → IsBytes m
    → let keyed = (crypto_aes_set_key tfm in_key key_len).0 in
      let m1 = parallel_for order (encrypt_round keyed tempbuffer ptr) m in
      let m2 = parallel_for order' (decrypt_round keyed outbuffer tempbuffer) m1 in
      (i : ℕ) → i < n → m2 (outbuffer + i) ≡ m (ptr + i)
unfolding aes_encrypt_at aes_decrypt_at
decrypt-encrypt_buffer tfm in_key key_len n ptr tempbuffer outbuffer order order' m v dec len whole
      apart apart' ord ord' bytes =
    bytes_of_blocks m2 m outbuffer ptr n whole bytes2 bytes λ k mul lt.
      parallel_for_blocks (aes_decrypt keyed) keep_dec n outbuffer tempbuffer whole apart' order' m1
        ord' bytes1 k mul lt
      ∙ ap (aes_decrypt keyed) (
          parallel_for_blocks (aes_encrypt keyed) keep_enc n tempbuffer ptr whole apart order m ord
            bytes k mul lt)
      ∙ aes_decrypt-aes_encrypt tfm in_key key_len (load_block m (ptr + k)) v len
          (load_block-IsBlock (ptr + k) bytes)
  where
    keyed : CryptoTfm
    keyed = (crypto_aes_set_key tfm in_key key_len).0

    keep_enc : (b : Block) → IsBlock b → IsBlock (aes_encrypt keyed b)
    keep_enc b _ = aes_encrypt-IsBlock keyed b (keyed_words tfm in_key v dec len).0

    keep_dec : (b : Block) → IsBlock b → IsBlock (aes_decrypt keyed b)
    keep_dec b _ = aes_decrypt-IsBlock keyed b (keyed_words tfm in_key v dec len).1

    m1 : Memory
    m1 = parallel_for order (encrypt_round keyed tempbuffer ptr) m

    m2 : Memory
    m2 = parallel_for order' (decrypt_round keyed outbuffer tempbuffer) m1

    bytes1 : IsBytes m1
    bytes1 =
        parallel_for-IsBytes (aes_encrypt keyed) keep_enc n tempbuffer ptr whole apart order m bytes

    bytes2 : IsBytes m2
    bytes2 =
        parallel_for-IsBytes (aes_decrypt keyed) keep_dec n outbuffer tempbuffer whole apart' order'
          m1 bytes1
