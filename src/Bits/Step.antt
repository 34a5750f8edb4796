-- ===== src/Bits/Step.antt =====
-- `bit_and`, `bit_or` and `bit_xor` stand for a recursion on binary digits whose depth is bounded by
-- the first operand. Here each gets an equation for its lowest digit that has no such bound.
use Prim.Native.Nat.{min, max, differ, digits, bit_and-bitwise, bit_or-bitwise, bit_xor-bitwise}
use native.Mathlib.Decide.{dec_le}
use xeon_phi_kernel_integrat.Base.{
  ℕ, zero, suc, ◌+◌, ◌*◌, ◌/◌, ◌%◌, ◌≤◌, ◌<◌, bit_and, bit_or, bit_xor, ◌≡◌, refl, ap, sym, arith,
  ◌∙◌,
}

module _ (z : ℕ → ℕ) (f : ℕ → ℕ → ℕ) where
  abbrev with_digit : ℕ → ℕ → ℕ → ℕ
  with_digit a b upper = upper * 2 + f (a % 2) (b % 2)

  -- A depth that reaches the last digit may as well be one more.
  one_deeper : (b n a : ℕ) → a ≤ n → digits z f (suc n) a b ≡ digits z f n a b
  one_deeper b zero zero h = refl
  one_deeper b zero (suc a) h = absurd (omega arith)
  one_deeper b (suc n) zero h = refl
  one_deeper b (suc n) (suc a) h =
      ap (with_digit (suc a) b) (one_deeper (b / 2) n (suc a / 2) (omega arith))

  least_depth : (b n a : ℕ) → a ≤ n → digits z f n a b ≡ digits z f a a b
  least_depth b zero zero h = refl
  least_depth b zero (suc a) h = absurd (omega arith)
  least_depth b (suc n) a h = elim (dec_le a n) [
    | yes le ↦ one_deeper b n a le ∙ least_depth b n a le
    | no gt ↦ ap (λ (d : ℕ). digits z f d a b) {x = suc n} {y = a} (omega arith)
  ]

  -- An operation that means `digits`, and does to a zero first operand what `f` does digit by digit.
  module _ (op : ℕ → ℕ → ℕ) (meaning : (a b : ℕ) → op a b ≡ digits z f a a b)
      (at_zero : (b : ℕ) → z b ≡ with_digit 0 b (z (b / 2))) where
    lowest_digit : (a b : ℕ) → op a b ≡ with_digit a b (op (a / 2) (b / 2))
    lowest_digit zero b = meaning 0 b ∙ at_zero b ∙ ap (with_digit 0 b) (sym (meaning 0 (b / 2)))
    lowest_digit (suc a) b =
        meaning (suc a) b
        ∙ ap (with_digit (suc a) b)
            (least_depth (b / 2) a (suc a / 2) (omega arith) ∙ sym (meaning (suc a / 2) (b / 2)))

pub bit_and_step : (a b : ℕ) → bit_and a b ≡ bit_and (a / 2) (b / 2) * 2 + min (a % 2) (b % 2)
bit_and_step =
    lowest_digit (λ b. 0) min bit_and (λ a b. λ i. bit_and-bitwise a b i) (λ b. omega arith)

pub bit_or_step : (a b : ℕ) → bit_or a b ≡ bit_or (a / 2) (b / 2) * 2 + max (a % 2) (b % 2)
bit_or_step = lowest_digit (λ b. b) max bit_or (λ a b. λ i. bit_or-bitwise a b i) (λ b. omega arith)

-- The digit of an exclusive or, as arithmetic.
differ_mod : (a b : ℕ) → a < 2 → b < 2 → differ a b ≡ (a + b) % 2
differ_mod zero b p q = omega arith
differ_mod (suc zero) zero p q = refl
differ_mod (suc zero) (suc zero) p q = refl
differ_mod (suc zero) (suc (suc b)) p q = absurd (omega arith)
differ_mod (suc (suc a)) b p q = absurd (omega arith)

bit_xor_digit : (a b : ℕ) → bit_xor a b ≡ bit_xor (a / 2) (b / 2) * 2 + differ (a % 2) (b % 2)
bit_xor_digit =
    lowest_digit (λ b. b) differ bit_xor (λ a b. λ i. bit_xor-bitwise a b i) (λ b. omega arith)

pub bit_xor_step : (a b : ℕ) → bit_xor a b ≡ bit_xor (a / 2) (b / 2) * 2 + (a + b) % 2
bit_xor_step a b =
    omega (arith, bit_xor_digit a b, differ_mod (a % 2) (b % 2) (omega arith) (omega arith))
