-- ===== src/Client/Passes.antt =====
-- One round of a loop that encrypts or decrypts over SCIF: a transfer to the card, a loop on its
-- memory, a transfer back.
use native.Mathlib.Decide.{dec_lt}
use xeon_phi_kernel_integrat.Base.{ℕ, ◌+◌, ◌-◌, ◌%◌, ◌≤◌, ◌<◌, List, ◌≡◌, inl, inr, ap, arith, ◌∙◌}
use xeon_phi_kernel_integrat.Aes.Context.{CryptoTfm}
use xeon_phi_kernel_integrat.Aes.KeySchedule.Words.{AllWords}
use xeon_phi_kernel_integrat.Aes.Cipher.{Block, aes_encrypt, aes_decrypt}
use xeon_phi_kernel_integrat.Aes.Cipher.Rounds.{IsBlock}
use xeon_phi_kernel_integrat.Aes.Bounds.{aes_encrypt-IsBlock, aes_decrypt-IsBlock}
use xeon_phi_kernel_integrat.Memory.{
  Memory, aes_encrypt_at, aes_decrypt_at, parallel_for, load_block,
}
use xeon_phi_kernel_integrat.Memory.Laws.{IsBytes, load_block_moved, load_block-IsBlock}
use xeon_phi_kernel_integrat.Memory.Loop.{
  IsOrder, Apart, outside, parallel_for-IsBytes, parallel_for_blocks,
}
use xeon_phi_kernel_integrat.Memory.Buffer.{encrypt_round, decrypt_round, bytes_of_blocks}
use xeon_phi_kernel_integrat.Client.Library.{IsCopied}
use xeon_phi_kernel_integrat.Client.Session.{Session}

-- The buffers of `main` do not overlap.
pub record IsApart (len : ℕ) (s : Session) : Type 0 where
  pub temp_ptr : Apart len s.tempbuffer s.ptr
  pub out_temp : Apart len s.outbuffer s.tempbuffer
  pub return_remote : Apart len s.return_ptr s.remote_ptr

-- What the two loops rely on: the keys are words, `aes_decrypt` undoes `aes_encrypt`, the host's
-- memory at the start, `start`, holds bytes, and the buffers do not overlap.
pub record IsSetting (len : ℕ) (tfm : CryptoTfm) (s : Session) (start : Memory) : Type 0 where
  pub enc_words : AllWords tfm.crt_ctx.key_enc
  pub dec_words : AllWords tfm.crt_ctx.key_dec
  pub back : (b : Block) → IsBlock b → aes_decrypt tfm (aes_encrypt tfm b) ≡ b
  pub bytes : IsBytes start
  pub apart : IsApart len s
  pub whole_len : len % 16 ≡ 0

module _ (len : ℕ) (tfm : CryptoTfm) (s : Session) (start : Memory)
    (v : IsSetting len tfm s start) where
  -- The host's first buffer is as it was, and the card's memory holds bytes.
  abbrev pub Kept : Memory → Memory → Type 0
  Kept card host =
      IsBytes card × ((i : ℕ) → i < len → host (s.remote_ptr + i) ≡ start (s.remote_ptr + i))

  -- `ptr` holds the first `n` bytes of the host's buffer.
  abbrev pub Loaded : ℕ → Memory → Type 0
  Loaded n card = (i : ℕ) → i < n → card (s.ptr + i) ≡ start (s.remote_ptr + i)

  -- `tempbuffer` holds the cipher text of the first `n` bytes of the host's buffer.
  abbrev pub Encrypted : ℕ → Memory → Type 0
  Encrypted n card =
      (k : ℕ)
      → k % 16 ≡ 0
      → k < n
      → load_block card (s.tempbuffer + k) ≡ aes_encrypt tfm (load_block start (s.remote_ptr + k))

  -- `outbuffer` holds the first `n` bytes of the host's buffer.
  abbrev pub Decrypted : ℕ → Memory → Type 0
  Decrypted n card = (i : ℕ) → i < n → card (s.outbuffer + i) ≡ start (s.remote_ptr + i)

  -- The host has got the first `n` bytes back.
  abbrev pub Returned : ℕ → Memory → Type 0
  Returned n host = (i : ℕ) → i < n → host (s.return_ptr + i) ≡ start (s.remote_ptr + i)

  keep_enc : (b : Block) → IsBlock b → IsBlock (aes_encrypt tfm b)
  keep_enc b _ = aes_encrypt-IsBlock tfm b v.enc_words

  keep_dec : (b : Block) → IsBlock b → IsBlock (aes_decrypt tfm b)
  keep_dec b _ = aes_decrypt-IsBlock tfm b v.dec_words

  -- `scif_readfrom`
  pub read_Loaded :
      (n : ℕ) {card host card' : Memory}
      → n ≤ len
      → Kept card host
      → IsCopied card host card' s.ptr s.remote_ptr n
      → Loaded n card'
  read_Loaded n le kept c i p = c.copied i p ∙ kept.1 i (omega arith)

  pub read_Kept :
      (n : ℕ) {card host card' : Memory}
      → n ≤ len
      → Kept card host
      → IsCopied card host card' s.ptr s.remote_ptr n
      → Kept card' host
  read_Kept n {card} {host} {card'} le kept c = (
    λ x. elim (dec_lt x s.ptr) [
      | yes below ↦ rw (c.others x (inl below)) (kept.0 x)
      | no above ↦ elim (dec_lt x (s.ptr + n)) [
        | yes within ↦ rw (ap card' {x = x} {y = s.ptr + (x - s.ptr)} (omega arith)) (
            rw (read_Loaded n le kept c (x - s.ptr) (omega arith))
              (v.bytes (s.remote_ptr + (x - s.ptr))))
        | no past ↦ rw (c.others x (inr (omega arith))) (kept.0 x)
      ]
    ],
    kept.1,
  )

  pub read_Encrypted :
      (n : ℕ) {card host card' : Memory}
      → n ≤ len
      → Encrypted len card
      → IsCopied card host card' s.ptr s.remote_ptr n
      → Encrypted len card'
  read_Encrypted n {card} {host} {card'} le done c k mul lt =
      load_block_moved card' card (s.tempbuffer + k) (s.tempbuffer + k)
        (λ i p. c.others (s.tempbuffer + k + i) (omega (arith, v.apart.temp_ptr, v.whole_len)))
      ∙ done k mul lt

  -- the loop of `aes_encrypt`
  pub encrypt_IsBytes :
      (n : ℕ) (order : List ℕ) (card : Memory)
      → n % 16 ≡ 0
      → n ≤ len
      → IsBytes card
      → IsBytes (parallel_for order (encrypt_round tfm s.tempbuffer s.ptr) card)
  unfolding aes_encrypt_at
  encrypt_IsBytes n order card whole le cb =
      parallel_for-IsBytes (aes_encrypt tfm) keep_enc n s.tempbuffer s.ptr whole
        (ground (arith, v.apart.temp_ptr)) order card cb

  pub encrypt_Encrypted :
      (n : ℕ) (order : List ℕ) (card : Memory)
      → n % 16 ≡ 0
      → n ≤ len
      → IsOrder n order
      → IsBytes card
      → Loaded n card
      → Encrypted n (parallel_for order (encrypt_round tfm s.tempbuffer s.ptr) card)
  unfolding aes_encrypt_at
  encrypt_Encrypted n order card whole le ord cb loaded k mul lt =
      parallel_for_blocks (aes_encrypt tfm) keep_enc n s.tempbuffer s.ptr whole
        (ground (arith, v.apart.temp_ptr)) order card ord cb k mul lt
      ∙ ap (aes_encrypt tfm) (
          load_block_moved card start (s.ptr + k) (s.remote_ptr + k) λ i p.
            ap card {x = s.ptr + k + i} {y = s.ptr + (k + i)} (omega arith)
            ∙ loaded (k + i) (omega arith)
            ∙ ap start {x = s.remote_ptr + (k + i)} {y = s.remote_ptr + k + i} (omega arith))

  pub encrypt_Loaded :
      (n : ℕ) (order : List ℕ) (card : Memory)
      → n % 16 ≡ 0
      → n ≤ len
      → IsOrder n order
      → Loaded len card
      → Loaded len (parallel_for order (encrypt_round tfm s.tempbuffer s.ptr) card)
  unfolding aes_encrypt_at
  encrypt_Loaded n order card whole le ord loaded i p =
      outside (aes_encrypt tfm) keep_enc n s.tempbuffer s.ptr whole
        (ground (arith, v.apart.temp_ptr)) order card (s.ptr + i) ord.only
        (ground (arith, v.apart.temp_ptr))
      ∙ loaded i p

  -- the loop of `aes_decrypt`
  pub decrypt_IsBytes :
      (n : ℕ) (order : List ℕ) (card : Memory)
      → n % 16 ≡ 0
      → n ≤ len
      → IsBytes card
      → IsBytes (parallel_for order (decrypt_round tfm s.outbuffer s.tempbuffer) card)
  unfolding aes_decrypt_at
  decrypt_IsBytes n order card whole le cb =
      parallel_for-IsBytes (aes_decrypt tfm) keep_dec n s.outbuffer s.tempbuffer whole
        (ground (arith, v.apart.out_temp)) order card cb

  pub decrypt_Encrypted :
      (n : ℕ) (order : List ℕ) (card : Memory)
      → n % 16 ≡ 0
      → n ≤ len
      → IsOrder n order
      → Encrypted len card
      → Encrypted len (parallel_for order (decrypt_round tfm s.outbuffer s.tempbuffer) card)
  unfolding aes_decrypt_at
  decrypt_Encrypted n order card whole le ord done k mul lt =
      load_block_moved _ card (s.tempbuffer + k) (s.tempbuffer + k) (λ i p.
        outside (aes_decrypt tfm) keep_dec n s.outbuffer s.tempbuffer whole
          (ground (arith, v.apart.out_temp)) order card (s.tempbuffer + k + i) ord.only
          (ground (arith, v.apart.out_temp, v.whole_len)))
      ∙ done k mul lt

  pub decrypt_Decrypted :
      (n : ℕ) (order : List ℕ) (card : Memory)
      → n % 16 ≡ 0
      → n ≤ len
      → IsOrder n order
      → IsBytes card
      → Encrypted len card
      → Decrypted n (parallel_for order (decrypt_round tfm s.outbuffer s.tempbuffer) card)
  unfolding aes_decrypt_at
  decrypt_Decrypted n order card whole le ord cb done =
      bytes_of_blocks (parallel_for order (decrypt_round tfm s.outbuffer s.tempbuffer) card) start
        s.outbuffer s.remote_ptr n whole
        (parallel_for-IsBytes (aes_decrypt tfm) keep_dec n s.outbuffer s.tempbuffer whole
          (ground (arith, v.apart.out_temp)) order card cb)
        v.bytes
        λ k mul lt.
          parallel_for_blocks (aes_decrypt tfm) keep_dec n s.outbuffer s.tempbuffer whole
            (ground (arith, v.apart.out_temp)) order card ord cb k mul lt
          ∙ ap (aes_decrypt tfm) (done k mul (omega arith))
          ∙ v.back (load_block start (s.remote_ptr + k))
              (load_block-IsBlock (s.remote_ptr + k) v.bytes)

  -- `scif_writeto`
  pub write_Kept :
      (sent n : ℕ) {card host host' : Memory}
      → n ≤ len
      → Kept card host
      → IsCopied host card host' s.return_ptr sent n
      → Kept card host'
  write_Kept sent n le kept c = (
    kept.0,
    λ i p. c.others (s.remote_ptr + i) (ground (arith, v.apart.return_remote)) ∙ kept.1 i p,
  )

  pub write_Returned :
      (n : ℕ) {card host host' : Memory}
      → Decrypted n card
      → IsCopied host card host' s.return_ptr s.outbuffer n
      → Returned n host'
  write_Returned n done c i p = c.copied i p ∙ done i p
