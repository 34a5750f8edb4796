-- ===== src/Bits/Xor.antt =====
-- Laws of the exclusive or on words of every width.
use Prim.Native.Nat.{bit_xor-bitwise, bit_and-bitwise}
use native.Mathlib.Nat.{
  pow-suc, mul-one, mod-one, mul_comm, div-one, div-div-eq-div-mul, div-add-mod,
}
use native.Mathlib.Nat.{add-mul-mod_self_right, mod-eq_of_lt, mod-lt, one-le-pow}
use mathlib.Core.Path.{◌≡⟨◌⟩◌, ◌∎}
use xeon_phi_kernel_integrat.Base.{
  ℕ, zero, suc, ◌+◌, ◌*◌, ◌/◌, ◌%◌, ◌^◌, ◌≤◌, ◌<◌, bit_and, bit_xor, ◌≡◌, refl, ap, arith, sym, ◌∙◌,
}
use xeon_phi_kernel_integrat.Bits.Step.{bit_and_step, bit_xor_step}

pub xor-div-two : (a b : ℕ) → bit_xor a b / 2 ≡ bit_xor (a / 2) (b / 2)
xor-div-two a b = omega (arith, bit_xor_step a b)

xor-mod-two : (a b : ℕ) → bit_xor a b % 2 ≡ (a + b) % 2
xor-mod-two a b = omega (arith, bit_xor_step a b)

-- Two numbers with the same half and the same parity are the same.
same_digits : (a b : ℕ) → a / 2 ≡ b / 2 → a % 2 ≡ b % 2 → a ≡ b
same_digits a b p q = omega arith

pub zero-xor : (b : ℕ) → bit_xor 0 b ≡ b
zero-xor b = simp bit_xor-bitwise

xor_comm_fuel : (n a b : ℕ) → a ≤ n → b ≤ n → bit_xor a b ≡ bit_xor b a
xor_comm_fuel zero zero zero p q = refl
xor_comm_fuel zero zero (suc b) p q = absurd (omega arith)
xor_comm_fuel zero (suc a) b p q = absurd (omega arith)
xor_comm_fuel (suc n) a b p q = omega (
  arith,
  bit_xor_step a b,
  bit_xor_step b a,
  xor_comm_fuel n (a / 2) (b / 2) (omega arith) (omega arith),
)

pub xor_comm : (a b : ℕ) → bit_xor a b ≡ bit_xor b a
xor_comm a b = xor_comm_fuel (a + b) a b (omega arith) (omega arith)

pub xor-zero : (a : ℕ) → bit_xor a 0 ≡ a
xor-zero a = xor_comm a 0 ∙ zero-xor a

xor_self_fuel : (n a : ℕ) → a ≤ n → bit_xor a a ≡ 0
xor_self_fuel zero zero p = refl
xor_self_fuel zero (suc a) p = absurd (omega arith)
xor_self_fuel (suc n) a p = omega (arith, bit_xor_step a a, xor_self_fuel n (a / 2) (omega arith))

pub xor_self : (a : ℕ) → bit_xor a a ≡ 0
xor_self a = xor_self_fuel a a (omega arith)

xor_assoc_fuel : (n a b c : ℕ) → a ≤ n → bit_xor (bit_xor a b) c ≡ bit_xor a (bit_xor b c)
xor_assoc_fuel zero zero b c p = rw (zero-xor b, zero-xor (bit_xor b c))
xor_assoc_fuel zero (suc a) b c p = absurd (omega arith)
xor_assoc_fuel (suc n) a b c p =
    same_digits _ _
      (rw
        (xor-div-two (bit_xor a b) c, xor-div-two a b, xor-div-two a (bit_xor b c), xor-div-two b c)
        (xor_assoc_fuel n (a / 2) (b / 2) (c / 2) (omega arith)))
      (omega (
        arith,
        xor-mod-two (bit_xor a b) c,
        xor-mod-two a b,
        xor-mod-two a (bit_xor b c),
        xor-mod-two b c,
      ))

pub xor_assoc : (a b c : ℕ) → bit_xor (bit_xor a b) c ≡ bit_xor a (bit_xor b c)
xor_assoc a b c = xor_assoc_fuel a a b c (omega arith)

pub xor_cancel : (a b : ℕ) → bit_xor (bit_xor a b) b ≡ a
xor_cancel a b = rw (xor_assoc a b b, xor_self b, xor-zero a)

pub xor_interchange :
    (a b c d : ℕ) → bit_xor (bit_xor a b) (bit_xor c d) ≡ bit_xor (bit_xor a c) (bit_xor b d)
xor_interchange a b c d = rw (
  xor_assoc a b (bit_xor c d),
  ← xor_assoc b c d,
  xor_comm b c,
  xor_assoc c b d,
  xor_assoc a c (bit_xor b d),
)

-- Shifts and masks distribute over the exclusive or.
xor-double : (a b : ℕ) → bit_xor (2 * a) (2 * b) ≡ 2 * bit_xor a b
xor-double a b =
    same_digits _ _ (rw (xor-div-two (2 * a) (2 * b), half a, half b, half (bit_xor a b)))
      (omega (arith, xor-mod-two (2 * a) (2 * b)))
  where
    half : (x : ℕ) → 2 * x / 2 ≡ x
    half x = omega arith

mul-pow-suc : (q k : ℕ) → q * 2 ^ suc k ≡ 2 * (q * 2 ^ k)
mul-pow-suc q k = omega (arith, ap (λ (t : ℕ). q * t) (pow-suc 2 k))

pub xor-mul : (k a b : ℕ) → bit_xor (a * 2 ^ k) (b * 2 ^ k) ≡ bit_xor a b * 2 ^ k
xor-mul zero a b = rw (mul-one a, mul-one b, mul-one (bit_xor a b))
xor-mul (suc k) a b = rw (
  mul-pow-suc a k,
  mul-pow-suc b k,
  mul-pow-suc (bit_xor a b) k,
  xor-double (a * 2 ^ k) (b * 2 ^ k),
  xor-mul k a b,
)

div-pow-suc : (x k : ℕ) → x / 2 ^ suc k ≡ x / 2 / 2 ^ k
div-pow-suc x k = rw (div-div-eq-div-mul x 2 (2 ^ k), pow-suc 2 k, mul_comm (2 ^ k) 2)

pub xor-div : (k a b : ℕ) → bit_xor a b / 2 ^ k ≡ bit_xor (a / 2 ^ k) (b / 2 ^ k)
xor-div zero a b = rw (div-one a, div-one b, div-one (bit_xor a b))
xor-div (suc k) a b =
    rw (div-pow-suc (bit_xor a b) k, div-pow-suc a k, div-pow-suc b k, xor-div-two a b)
      (xor-div k (a / 2) (b / 2))

mod-pow-suc : (x k : ℕ) → x % 2 ^ suc k ≡ x / 2 % 2 ^ k * 2 + x % 2
mod-pow-suc x k =
    x % 2 ^ suc k
    ≡⟨ ap (λ (t : ℕ). t % 2 ^ suc k) split ⟩ (low + q * 2 ^ suc k) % 2 ^ suc k
    ≡⟨ add-mul-mod_self_right low q (2 ^ suc k) ⟩ low % 2 ^ suc k
    ≡⟨ mod-eq_of_lt below ⟩ low ∎
  where
    q : ℕ
    q = x / 2 / 2 ^ k

    low : ℕ
    low = x / 2 % 2 ^ k * 2 + x % 2

    split : x ≡ low + q * 2 ^ suc k
    split = omega (arith, div-add-mod (x / 2) (2 ^ k), mul-pow-suc q k)

    below : low < 2 ^ suc k
    below = omega (arith, mod-lt (x / 2) (one-le-pow k 2 (omega arith)), pow-suc 2 k)

mod-pow-suc-half : (x k : ℕ) → x % 2 ^ suc k / 2 ≡ x / 2 % 2 ^ k
mod-pow-suc-half x k = omega (arith, mod-pow-suc x k)

pub xor-mod : (k a b : ℕ) → bit_xor a b % 2 ^ k ≡ bit_xor (a % 2 ^ k) (b % 2 ^ k)
xor-mod zero a b = rw (mod-one a, mod-one b, mod-one (bit_xor a b)) (sym (xor_self 0))
xor-mod (suc k) a b =
    same_digits _ _
      (rw
        (
          mod-pow-suc-half (bit_xor a b) k,
          xor-div-two (a % 2 ^ suc k) (b % 2 ^ suc k),
          mod-pow-suc-half a k,
          mod-pow-suc-half b k,
          xor-div-two a b,
        )
        (xor-mod k (a / 2) (b / 2)))
      (omega (
        arith,
        mod-pow-suc (bit_xor a b) k,
        mod-pow-suc a k,
        mod-pow-suc b k,
        xor-mod-two a b,
        xor-mod-two (a % 2 ^ suc k) (b % 2 ^ suc k),
      ))

pub xor-lt : (k a b : ℕ) → a < 2 ^ k → b < 2 ^ k → bit_xor a b < 2 ^ k
xor-lt zero zero zero p q = omega (arith, xor_self 0)
xor-lt zero zero (suc b) p q = absurd (omega arith)
xor-lt zero (suc a) b p q = absurd (omega arith)
xor-lt (suc k) a b p q =
    let size = pow-suc 2 k in
    omega (arith, bit_xor_step a b, xor-lt k (a / 2) (b / 2) (omega arith) (omega arith))

zero-and : (m : ℕ) → bit_and 0 m ≡ 0
zero-and m = simp bit_and-bitwise

and-div-two : (a m : ℕ) → bit_and a m / 2 ≡ bit_and (a / 2) (m / 2)
and-div-two a m = omega (arith, bit_and_step a m)

and-xor_fuel : (n m a b : ℕ) → a ≤ n → bit_and (bit_xor a b) m ≡ bit_xor (bit_and a m) (bit_and b m)
and-xor_fuel zero m zero b p = rw (zero-and m, zero-xor b, zero-xor (bit_and b m))
and-xor_fuel zero m (suc a) b p = absurd (omega arith)
and-xor_fuel (suc n) m a b p =
    same_digits _ _
      (rw
        (
          and-div-two (bit_xor a b) m,
          xor-div-two a b,
          xor-div-two (bit_and a m) (bit_and b m),
          and-div-two a m,
          and-div-two b m,
        )
        (and-xor_fuel n (m / 2) (a / 2) (b / 2) (omega arith)))
      (omega (
        arith,
        bit_and_step (bit_xor a b) m,
        bit_and_step a m,
        bit_and_step b m,
        xor-mod-two a b,
        xor-mod-two (bit_and a m) (bit_and b m),
      ))

pub and-xor : (m a b : ℕ) → bit_and (bit_xor a b) m ≡ bit_xor (bit_and a m) (bit_and b m)
and-xor m a b = and-xor_fuel a m a b (omega arith)

and-zero_fuel : (n a : ℕ) → a ≤ n → bit_and a 0 ≡ 0
and-zero_fuel n zero h = zero-and 0
and-zero_fuel zero (suc a) h = absurd (omega arith)
and-zero_fuel (suc n) (suc a) h =
    omega (arith, bit_and_step (suc a) 0, and-zero_fuel n (suc a / 2) (omega arith))

pub and-zero : (a : ℕ) → bit_and a 0 ≡ 0
and-zero a = and-zero_fuel a a (omega arith)

pub and-div : (k a m : ℕ) → bit_and a m / 2 ^ k ≡ bit_and (a / 2 ^ k) (m / 2 ^ k)
and-div zero a m = rw (div-one a, div-one m, div-one (bit_and a m))
and-div (suc k) a m =
    rw (div-pow-suc (bit_and a m) k, div-pow-suc a k, div-pow-suc m k, and-div-two a m)
      (and-div k (a / 2) (m / 2))

-- A mask that is shifted left reads the word shifted right.
pub and_shl : (k a m : ℕ) → bit_and a (m * 2 ^ k) ≡ bit_and (a / 2 ^ k) m * 2 ^ k
and_shl zero a m = rw (mul-one m, div-one a, mul-one (bit_and a m))
and_shl (suc k) a m = omega (
  arith,
  bit_and_step a (m * 2 ^ suc k),
  mul-pow-suc m k,
  ap (λ (t : ℕ). bit_and (a / 2) t) half,
  and_shl k (a / 2) m,
  ap (λ (t : ℕ). bit_and t m) (div-pow-suc a k),
  mul-pow-suc (bit_and (a / 2 ^ suc k) m) k,
  ap (λ (t : ℕ). t * 2 ^ k) (ap (λ (t : ℕ). bit_and t m) (div-pow-suc a k)),
)
  where
    half : m * 2 ^ suc k / 2 ≡ m * 2 ^ k
    half = omega (arith, mul-pow-suc m k)
