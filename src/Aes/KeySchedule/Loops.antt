-- ===== src/Aes/KeySchedule/Loops.antt =====
-- Rules for the counted loops of `crypto_aes_expand_key`.
use native.Mathlib.Decide.{ℕ_discrete}
use xeon_phi_kernel_integrat.Base.{
  ℕ, zero, suc, ◌<◌, List, length, get_or, set, length-set, get_or-set_self, get_or-set_ne, ◌≡◌,
  ◌≢◌, refl, arith, ◌∙◌,
}
use xeon_phi_kernel_integrat.Aes.KeySchedule.{for_below}

-- What each round keeps, the loop keeps.
pub for_below_keeps {ℓ κ} :
    {S : Type ℓ} (P : S → Type κ) (body : ℕ → S → S)
    → ((i : ℕ) (s : S) → P s → P (body i s))
    → (n : ℕ) (s : S) → P s
    → P (for_below n body s)
unfolding for_below
for_below_keeps P body h zero s p = p
for_below_keeps P body h (suc n) s p = h n (for_below n body s) (for_below_keeps P body h n s p)

-- A loop that stores `val i` at `idx i`.
module _ (idx val : ℕ → ℕ) where
  abbrev pub fill : ℕ → List ℕ → List ℕ
  fill n d = for_below n (λ i. λ (a : List ℕ). set a (idx i) (val i)) d

  pub length-fill : (n : ℕ) (d : List ℕ) → length (fill n d) ≡ length d
  length-fill n d =
      for_below_keeps (λ a. length a ≡ length d) (λ i. λ (a : List ℕ). set a (idx i) (val i))
        (λ i a e. length-set a (idx i) (val i) ∙ e) n d refl

  -- A place that no round stores to is left alone.
  pub fill_miss :
      (n : ℕ) (d : List ℕ) (j : ℕ)
      → ((i : ℕ) → i < n → idx i ≢ j)
      → get_or (fill n d) j 0 ≡ get_or d j 0
  unfolding for_below
  fill_miss zero d j h = refl
  fill_miss (suc n) d j h =
      get_or-set_ne (fill n d) (idx n) j (val n) 0 (h n (omega arith))
      ∙ fill_miss n d j (λ i p. h i (omega arith))

  -- Where no two rounds store to one place, each store lasts.
  pub fill_hit :
      (n : ℕ) (d : List ℕ) (i : ℕ)
      → i < n
      → idx i < length d
      → ((k : ℕ) → i < k → k < n → idx k ≢ idx i)
      → get_or (fill n d) (idx i) 0 ≡ val i
  unfolding for_below
  fill_hit zero d i lt room h = absurd (omega arith)
  fill_hit (suc n) d i lt room h = elim (ℕ_discrete i n) [
    | yes e ↦ rw e (get_or-set_self (fill n d) (idx n) (val n) 0 (rw (length-fill n d, ← e) room))
    | no ne ↦
        get_or-set_ne (fill n d) (idx n) (idx i) (val n) 0 (h n (omega arith) (omega arith))
        ∙ fill_hit n d i (omega arith) room (λ k p q. h k p (omega arith))
  ]
