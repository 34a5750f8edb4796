-- ===== src/Memory/Order.antt =====
-- The order of the rounds of a parallel loop of openmpmic/scif_mic.c.
use native.Mathlib.Decide.{dec_lt}
use xeon_phi_kernel_integrat.Base.{
  ℕ, ◌+◌, ◌-◌, ◌%◌, ◌≤◌, ◌<◌, List, ◌≡◌, ◌⊎◌, inl, inr, sym, ap, arith, ◌∙◌,
}
use xeon_phi_kernel_integrat.Aes.Cipher.{Block}
use xeon_phi_kernel_integrat.Aes.Cipher.Rounds.{IsBlock}
use xeon_phi_kernel_integrat.Memory.{Memory, parallel_for, load_block}
use xeon_phi_kernel_integrat.Memory.Laws.{IsBytes, load_block_bytes}
use xeon_phi_kernel_integrat.Memory.Loop.{
  IsOrder, Apart, crypt, outside, parallel_for-IsBytes, parallel_for_blocks,
}

module _ (f : Block → Block) (keeps : (b : Block) → IsBlock b → IsBlock (f b)) (n out inp : ℕ)
    (whole : n % 16 ≡ 0) (apart : Apart n out inp) where
  abbrev round : ℕ → Memory → Memory
  round = crypt f keeps n out inp whole apart

  -- The bytes of the output, wherever the loop's input stood.
  pub same_output :
      (order order' : List ℕ) (m : Memory)
      → IsOrder n order
      → IsOrder n order'
      → IsBytes m
      → (x : ℕ) → parallel_for order round m x ≡ parallel_for order' round m x
  same_output order order' m ord ord' bytes x = elim (dec_lt x out) [
    | yes below ↦ untouched (inl below)
    | no above ↦ elim (dec_lt x (out + n)) [
      | yes within ↦ inside (x - out) (omega arith) (omega arith)
      | no past ↦ untouched (inr (omega arith))
    ]
  ]
    where
      untouched :
          (x < out) ⊎ (out + n ≤ x) → parallel_for order round m x ≡ parallel_for order' round m x
      untouched h =
          outside f keeps n out inp whole apart order m x ord.only h
          ∙ sym (outside f keeps n out inp whole apart order' m x ord'.only h)

      blocks :
          (k : ℕ)
          → k % 16 ≡ 0
          → k < n
          → load_block (parallel_for order round m) (out + k)
            ≡ load_block (parallel_for order' round m) (out + k)
      blocks k mul lt =
          parallel_for_blocks f keeps n out inp whole apart order m ord bytes k mul lt
          ∙ sym (parallel_for_blocks f keeps n out inp whole apart order' m ord' bytes k mul lt)

      inside :
          (d : ℕ)
          → x ≡ out + d
          → d < n
          → parallel_for order round m x ≡ parallel_for order' round m x
      inside d e lt =
          ap (parallel_for order round m) {x = x} {y = out + (d - d % 16) + d % 16} (omega arith)
          ∙ load_block_bytes (parallel_for order round m) (parallel_for order' round m)
              (out + (d - d % 16)) (out + (d - d % 16))
              (parallel_for-IsBytes f keeps n out inp whole apart order m bytes)
              (parallel_for-IsBytes f keeps n out inp whole apart order' m bytes)
              (blocks (d - d % 16) (omega arith) (omega arith)) (d % 16) (omega arith)
          ∙ ap (parallel_for order' round m) {x = out + (d - d % 16) + d % 16} {y = x} (omega arith)
