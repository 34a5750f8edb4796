-- ===== src/Echo/Run.antt =====
-- What the programs of base do to their buffers.
use native.Mathlib.Decide.{ℕ_discrete}
use xeon_phi_kernel_integrat.Base.{
  ℕ, zero, suc, ◌+◌, ◌%◌, ◌^◌, ◌≤◌, ◌<◌, ◌≡◌, ◌⊎◌, inl, refl, ap, arith, ◌∙◌,
}
use xeon_phi_kernel_integrat.Memory.{Memory}
use xeon_phi_kernel_integrat.Client.Host.{store8}
use xeon_phi_kernel_integrat.Client.HostLaws.{store8_self, store8_other}
use xeon_phi_kernel_integrat.Echo.Exchange.{increment_from, increment}

rounds_from :
    (left i buffer : ℕ) (m : Memory)
    → let m' = increment_from left i buffer m in
      ((j : ℕ) → i ≤ j → j < i + left → m' (buffer + j) ≡ (m (buffer + j) + 1) % 2 ^ 8)
      × ((x : ℕ) → (x < buffer + i) ⊎ (buffer + i + left ≤ x) → m' x ≡ m x)
unfolding increment_from
rounds_from zero i buffer m = ((λ j lo hi. absurd (omega arith)), (λ x h. refl))
rounds_from (suc left) i buffer m =
    let v = (m (buffer + i) + 1) % 2 ^ 8 in
    let (inside, outside) = rounds_from left (i + 1) buffer (store8 (buffer + i) v m) in
    (
      (λ j lo hi. elim (ℕ_discrete j i) [
        | yes e ↦ rw e (outside (buffer + i) (inl (omega arith)) ∙ store8_self (buffer + i) v m)
        | no ne ↦
            inside j (omega arith) (omega arith)
            ∙ ap (λ k. (k + 1) % 2 ^ 8) (store8_other (buffer + i) v m (buffer + j) (omega arith))
      ]),
      (λ x h. outside x (omega arith) ∙ store8_other (buffer + i) v m x (omega arith)),
    )

-- The card's loop adds one, round 256, to each byte of its buffer, and changes no other byte.
pub increment_lem :
    (n buffer : ℕ) (m : Memory)
    → let m' = increment n buffer m in
      ((j : ℕ) → j < n → m' (buffer + j) ≡ (m (buffer + j) + 1) % 2 ^ 8)
      × ((x : ℕ) → (x < buffer) ⊎ (buffer + n ≤ x) → m' x ≡ m x)
unfolding increment
increment_lem n buffer m =
    let (inside, outside) = rounds_from n 0 buffer m in
    ((λ j lt. inside j (omega arith) (omega arith)), (λ x h. outside x (omega arith)))
