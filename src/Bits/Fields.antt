-- ===== src/Bits/Fields.antt =====
-- Fields that do not overlap: both `|` and `^` put them together as a sum does.
use native.Mathlib.Nat.{pow-suc}
use xeon_phi_kernel_integrat.Base.{
  ℕ, zero, suc, ◌+◌, ◌*◌, ◌/◌, ◌^◌, ◌≤◌, ◌<◌, bit_or, bit_xor, ◌≡◌, refl, ap, arith,
}
use xeon_phi_kernel_integrat.Bits.Step.{bit_or_step, bit_xor_step}
use xeon_phi_kernel_integrat.Bits.Xor.{xor-zero}

or-zero_fuel : (n a : ℕ) → a ≤ n → bit_or a 0 ≡ a
or-zero_fuel n zero p = refl
or-zero_fuel zero (suc a) p = absurd (omega arith)
or-zero_fuel (suc n) (suc a) p =
    omega (arith, bit_or_step (suc a) 0, or-zero_fuel n (suc a / 2) (omega arith))

or-zero : (a : ℕ) → bit_or a 0 ≡ a
or-zero a = or-zero_fuel a a (omega arith)

mul-pow-suc : (q k : ℕ) → q * 2 ^ suc k ≡ 2 * (q * 2 ^ k)
mul-pow-suc q k = omega (arith, ap (λ (t : ℕ). q * t) (pow-suc 2 k))

pub xor_fields : (k q r : ℕ) → r < 2 ^ k → bit_xor (q * 2 ^ k) r ≡ q * 2 ^ k + r
xor_fields zero q r h = ground (arith, xor-zero q)
xor_fields (suc k) q r h = ground (
  arith,
  bit_xor_step (q * 2 ^ suc k) r,
  mul-pow-suc q k,
  pow-suc 2 k,
  xor_fields k q (r / 2) (omega (arith, pow-suc 2 k)),
)

or_fields : (k q r : ℕ) → r < 2 ^ k → bit_or (q * 2 ^ k) r ≡ q * 2 ^ k + r
or_fields zero q r h = ground (arith, or-zero q)
or_fields (suc k) q r h = ground (
  arith,
  bit_or_step (q * 2 ^ suc k) r,
  mul-pow-suc q k,
  pow-suc 2 k,
  or_fields k q (r / 2) (omega (arith, pow-suc 2 k)),
)

or_comm_fuel : (n a b : ℕ) → a ≤ n → b ≤ n → bit_or a b ≡ bit_or b a
or_comm_fuel zero zero zero p q = refl
or_comm_fuel zero zero (suc b) p q = absurd (omega arith)
or_comm_fuel zero (suc a) b p q = absurd (omega arith)
or_comm_fuel (suc n) a b p q = omega (
  arith,
  bit_or_step a b,
  bit_or_step b a,
  or_comm_fuel n (a / 2) (b / 2) (omega arith) (omega arith),
)

pub or_comm : (a b : ℕ) → bit_or a b ≡ bit_or b a
or_comm a b = or_comm_fuel (a + b) a b (omega arith) (omega arith)

-- On fields that do not overlap `|` is `^`.
pub or-eq-xor : (k q r : ℕ) → r < 2 ^ k → bit_or (q * 2 ^ k) r ≡ bit_xor (q * 2 ^ k) r
or-eq-xor k q r h = rw (or_fields k q r h, xor_fields k q r h)
