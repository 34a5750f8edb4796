-- ===== src/MemoryBench/CopyLaws.antt =====
-- The two ways to copy a buffer.
use native.Mathlib.Decide.{ℕ_discrete}
use xeon_phi_kernel_integrat.Base.{
  ℕ, zero, suc, ◌+◌, ◌-◌, ◌≤◌, ◌<◌, ◌≡◌, ◌⊎◌, inl, inr, refl, sym, arith, ◌∙◌, ltb, Bool-cases,
}
use xeon_phi_kernel_integrat.Memory.{Memory}
use xeon_phi_kernel_integrat.Memory.Loop.{Apart}
use xeon_phi_kernel_integrat.Client.Library.{IsCopied}
use xeon_phi_kernel_integrat.Client.Host.{store8}
use xeon_phi_kernel_integrat.Client.HostLaws.{store8_self, store8_other}
use xeon_phi_kernel_integrat.MemoryBench.Copy.{memcpy, copy_from, copy_loop}

pub memcpy-IsCopied : (n to from : ℕ) (m : Memory) → IsCopied m m (memcpy n to from m) to from n
unfolding memcpy
memcpy-IsCopied n to from m = record {
  copied = λ i lt. let e : to + i - to ≡ i = omega arith in ground (arith, lt, e);
  others = λ x h. ground (arith, h);
}

-- the rounds from `j` on, `left` of them, for arrays of `n` bytes
copied_from :
    (n left j dst src : ℕ) (m : Memory)
    → Apart n dst src
    → j + left ≤ n
    → let m' = copy_from left j dst src m in
      ((i : ℕ) → j ≤ i → i < j + left → m' (dst + i) ≡ m (src + i))
      × ((x : ℕ) → (x < dst + j) ⊎ (dst + j + left ≤ x) → m' x ≡ m x)
unfolding copy_from
copied_from n zero j dst src m apart le = ((λ i lo hi. absurd (omega arith)), (λ x h. refl))
copied_from n (suc left) j dst src m apart le =
    let v = m (src + j) in
    let (inside, outside) =
      copied_from n left (j + 1) dst src (store8 (dst + j) v m) apart (omega arith) in
    (
      (λ i lo hi. elim (ℕ_discrete i j) [
        | yes e ↦ rw e (outside (dst + j) (inl (omega arith)) ∙ store8_self (dst + j) v m)
        | no ne ↦
            inside i (omega arith) (omega arith)
            ∙ store8_other (dst + j) v m (src + i) (omega arith)
      ]),
      (λ x h. outside x (omega arith) ∙ store8_other (dst + j) v m x (omega arith)),
    )

pub copy_loop-IsCopied :
    (n dst src : ℕ) (m : Memory) → Apart n dst src → IsCopied m m (copy_loop n dst src m) dst src n
unfolding copy_loop
copy_loop-IsCopied n dst src m apart =
    let (inside, outside) = copied_from n n 0 dst src m apart (omega arith) in
    record {
      copied = λ i lt. inside i (omega arith) (omega arith);
      others = λ x h. outside x (omega arith);
    }

-- The loop of memory/formem.c copies what `memcpy` copies: where the two buffers of `n` bytes do not
-- overlap, the two leave the same byte at every address.
pub copy_loop-memcpy :
    (n dst src : ℕ) (m : Memory)
    → Apart n dst src
    → (x : ℕ) → copy_loop n dst src m x ≡ memcpy n dst src m x
copy_loop-memcpy n dst src m apart x =
    let loop = copy_loop-IsCopied n dst src m apart in
    let call = memcpy-IsCopied n dst src m in
    elim (Bool-cases (ltb x dst)) [
      | inl lt ↦
          let out : (x < dst) ⊎ (dst + n ≤ x) = inl (ground (arith, lt)) in
          loop.others x out ∙ sym (call.others x out)
      | inr ge ↦ elim (Bool-cases (ltb x (dst + n))) [
        | inl lt ↦
            let e : x ≡ dst + (x - dst) = ground (arith, ge) in
            let bound : x - dst < n = ground (arith, lt, ge) in
            rw e (loop.copied (x - dst) bound ∙ sym (call.copied (x - dst) bound))
        | inr far ↦
            let out : (x < dst) ⊎ (dst + n ≤ x) = inr (ground (arith, far)) in
            loop.others x out ∙ sym (call.others x out)
      ]
    ]
