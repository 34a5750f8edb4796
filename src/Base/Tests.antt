-- ===== src/Base/Tests.antt =====
-- Boolean tests on the native numbers, the conditional, and checks of all values below a bound.
use Prim.Native.Nat.{ℕ, zero, suc, ◌<◌, compare, Ordering}
use mathlib.Core.Path.{◌≡◌, refl}
use mathlib.Core.Logic.{◌⊎◌, inl, inr, ◌↔◌}
use mathlib.Core.Bool.{Bool, true, false, ◌&&◌}
use native.Mathlib.Omega.{arith}

abbrev pub ltb : ℕ → ℕ → Bool
ltb a b = elim (compare a b) [ Ordering.lt ↦ true | _ ↦ false ]

infix 50 ◌==◌
abbrev pub ◌==◌ : ℕ → ℕ → Bool
a == b = elim (compare a b) [ Ordering.eq ↦ true | _ ↦ false ]

infix 1 if◌then◌else◌
abbrev pub if◌then◌else◌ {ℓ} : {A : Type ℓ} → Bool → A → A → A
if true then x else y = x
if false then x else y = y

pub ==_iff : (a b : ℕ) → ((a == b) ≡ true) ↔ (a ≡ b)
==_iff a b = ground arith

pub Bool-cases : (b : Bool) → (b ≡ true) ⊎ (b ≡ false)
Bool-cases true = inl refl
Bool-cases false = inr refl

-- Whether a test passes at every number below a bound, by running it.
unfoldable pub passes_below : (ℕ → Bool) → ℕ → Bool
passes_below test zero = true
passes_below test (suc bound) = passes_below test bound && test bound

at_one_below :
    (test : ℕ → Bool) (x bound : ℕ) → passes_below test bound ≡ true → x < bound → test x ≡ true
unfolding passes_below
at_one_below test x zero all below = absurd (omega arith)
at_one_below test x (suc bound) all below = ground (arith, at_one_below test x bound)

pub passes_below_at :
    (test : ℕ → Bool) (bound : ℕ)
    → passes_below test bound ≡ true
    → (x : ℕ) → x < bound
    → test x ≡ true
passes_below_at test bound all x below = at_one_below test x bound all below
