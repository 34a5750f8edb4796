-- ===== src/Tests/Buffers.antt =====
-- The theorems on whole buffers at concrete buffers, orders and memories.
use xeon_phi_kernel_integrat.Base.{◌+◌, ◌%◌, ◌^◌, [], ◌∷◌, ◌≡◌, inl, inr, refl, arith}
use xeon_phi_kernel_integrat.Memory.{Memory, parallel_for}
use xeon_phi_kernel_integrat.Memory.Laws.{IsBytes}
use xeon_phi_kernel_integrat.Memory.Loop.{IsOrder}
use xeon_phi_kernel_integrat.Memory.Buffer.{
  encrypt_round, decrypt_round, encrypt_order, decrypt-encrypt_buffer, keyed_words,
}
use xeon_phi_kernel_integrat.Tests.Cipher.{blank, key_128, keyed, blank-IsContext, zeros-AllWords}
use xeon_phi_kernel_integrat.Tests.Loopback.{backwards, backwards-IsOrder}

abbrev pub counting : Memory
counting a = a % 2 ^ 8

pub counting-IsBytes : IsBytes counting
counting-IsBytes a = omega arith

-- the rounds of a buffer of 48 bytes, from the first to the last
forwards-IsOrder : IsOrder 48 (0 ∷ 16 ∷ 32 ∷ [])
forwards-IsOrder = record { only = λ k p. omega (arith, p); every = λ k mul lt. ground arith }

encrypt_order_example :
    parallel_for (0 ∷ 16 ∷ 32 ∷ []) (encrypt_round keyed 64 0) counting 70
    ≡ parallel_for (backwards 3) (encrypt_round keyed 64 0) counting 70
encrypt_order_example =
    encrypt_order keyed 48 64 0 (0 ∷ 16 ∷ 32 ∷ []) (backwards 3) counting
      (keyed_words blank key_128 blank-IsContext (zeros-AllWords 60) (inl refl)).0 refl
      (inr (omega arith)) forwards-IsOrder (backwards-IsOrder 48 refl) counting-IsBytes 70

decrypt-encrypt_buffer_example :
    parallel_for
      (backwards 3)
      (decrypt_round keyed 128 64)
      (parallel_for (0 ∷ 16 ∷ 32 ∷ []) (encrypt_round keyed 64 0) counting)
      (128 + 33)
    ≡ 33
decrypt-encrypt_buffer_example =
    decrypt-encrypt_buffer blank key_128 16 48 0 64 128 (0 ∷ 16 ∷ 32 ∷ []) (backwards 3) counting
      blank-IsContext (zeros-AllWords 60) (inl refl) refl (inr (omega arith)) (inr (omega arith))
      forwards-IsOrder (backwards-IsOrder 48 refl) counting-IsBytes 33 (omega arith)
