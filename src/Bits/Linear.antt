-- ===== src/Bits/Linear.antt =====
-- Functions on words that distribute over `^`, and how few values determine them.
use native.Mathlib.Nat.{pow-suc}
use xeon_phi_kernel_integrat.Base.{
  ℕ, zero, suc, ◌*◌, ◌/◌, ◌%◌, ◌^◌, ◌<◌, bit_and, bit_xor, ◌≡◌, refl, ap, arith, sym, ◌∙◌, true,
  ◌==◌, ==_iff, passes_below, passes_below_at,
}
use xeon_phi_kernel_integrat.Bits.Fields.{xor_fields}
use xeon_phi_kernel_integrat.Bits.Xor.{
  xor_interchange, xor_self, xor-mul, xor-div, xor-mod, and-xor,
}

abbrev pub IsLinear : (ℕ → ℕ) → Type 0
IsLinear f = (a b : ℕ) → f (bit_xor a b) ≡ bit_xor (f a) (f b)

pub compose-IsLinear : (f g : ℕ → ℕ) → IsLinear f → IsLinear g → IsLinear (λ x. f (g x))
compose-IsLinear f g hf hg a b = ap f (hg a b) ∙ hf (g a) (g b)

pub xor-IsLinear : (f g : ℕ → ℕ) → IsLinear f → IsLinear g → IsLinear (λ x. bit_xor (f x) (g x))
xor-IsLinear f g hf hg a b = rw (hf a b, hg a b) (xor_interchange (f a) (f b) (g a) (g b))

pub and-IsLinear : (m : ℕ) → IsLinear (λ x. bit_and x m)
and-IsLinear m a b = and-xor m a b

pub shl-IsLinear : (k : ℕ) → IsLinear (λ x. x * 2 ^ k)
shl-IsLinear k a b = sym (xor-mul k a b)

pub shr-IsLinear : (k : ℕ) → IsLinear (λ x. x / 2 ^ k)
shr-IsLinear k a b = xor-div k a b

pub mod-IsLinear : (k : ℕ) → IsLinear (λ x. x % 2 ^ k)
mod-IsLinear k a b = xor-mod k a b

pub id-IsLinear : IsLinear (λ x. x)
id-IsLinear a b = refl

linear-zero : (f : ℕ → ℕ) → IsLinear f → f 0 ≡ 0
linear-zero f h = ap f (sym (xor_self 0)) ∙ h 0 0 ∙ xor_self (f 0)

low_bit : (w : ℕ) → w ≡ bit_xor (w / 2 * 2) (w % 2)
low_bit w = omega (arith, xor_fields 1 (w / 2) (w % 2) (omega arith))

eq_on_digits : (f g : ℕ → ℕ) → IsLinear f → IsLinear g → f 1 ≡ g 1 → (d : ℕ) → d < 2 → f d ≡ g d
eq_on_digits f g hf hg h zero p = linear-zero f hf ∙ sym (linear-zero g hg)
eq_on_digits f g hf hg h (suc zero) p = h
eq_on_digits f g hf hg h (suc (suc d)) p = absurd (omega arith)

-- Two such functions agree on all words of k bits if they agree on the k powers of two.
eq_on_basis :
    (k : ℕ) (f g : ℕ → ℕ)
    → IsLinear f
    → IsLinear g
    → ((i : ℕ) → i < k → f (2 ^ i) ≡ g (2 ^ i))
    → (w : ℕ) → w < 2 ^ k
    → f w ≡ g w
eq_on_basis zero f g hf hg h zero lt = linear-zero f hf ∙ sym (linear-zero g hg)
eq_on_basis zero f g hf hg h (suc w) lt = absurd (omega arith)
eq_on_basis (suc k) f g hf hg h w lt = rw (
  low_bit w,
  hf (w / 2 * 2) (w % 2),
  hg (w / 2 * 2) (w % 2),
  eq_on_digits f g hf hg (h 0 (omega arith)) (w % 2) (omega arith),
  eq_on_basis k (λ x. f (x * 2)) (λ x. g (x * 2))
      (compose-IsLinear f (λ x. x * 2) hf (shl-IsLinear 1))
      (compose-IsLinear g (λ x. x * 2) hg (shl-IsLinear 1))
      (λ i p. rw (← pow-suc 2 i) (h (suc i) (omega arith))) (w / 2) (omega (arith, pow-suc 2 k)),
)

pub eq_of_basis :
    (k : ℕ) (f g : ℕ → ℕ)
    → IsLinear f
    → IsLinear g
    → passes_below (λ i. f (2 ^ i) == g (2 ^ i)) k ≡ true
    → (w : ℕ) → w < 2 ^ k
    → f w ≡ g w
eq_of_basis k f g hf hg t =
    eq_on_basis k f g hf hg λ i p. (==_iff _ _).0 (passes_below_at _ k t i p)
