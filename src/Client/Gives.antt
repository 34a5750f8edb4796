-- ===== src/Client/Gives.antt =====
-- What holds of the value of a part of a program, and of the world then, where it goes on.
use mathlib.Core.Path.{subst}
use mathlib.Core.Option.{Option, none, some}
use xeon_phi_kernel_integrat.Base.{ℕ, Bool, true, false, ◌≡◌, refl}
use xeon_phi_kernel_integrat.Client.Step.{
  Exit, value, returned, M, ◌>>=◌, ◌>>◌, check, obtain, effect,
}

module _ {W : Type 0} where
  abbrev pub Gives : {A : Type 0} → (A → W → Type 0) → Exit A × W → Type 0
  Gives Q (value a, w) = Q a w
  Gives Q (returned c, w) = Unit {0}

  pub gives_elim :
      {A : Type 0} (Q : A → W → Type 0) (o : Exit A × W) (a : A) (w : W)
      → o ≡ (value a, w)
      → Gives Q o
      → Q a w
  gives_elim Q o a w e g = subst (Gives Q) e g

  after :
      {A B : Type 0} (Q : A → W → Type 0) (R : B → W → Type 0) (f : A → M W B) (o : Exit A × W)
      → Gives Q o
      → ((a : A) (w : W) → Q a w → Gives R (f a w))
      → Gives {A = B} R
          (let (r, w) = o in elim r [ value a ↦ f a w | returned c ↦ (returned c, w) ])
  after Q R f (value a, w) q h = h a w q
  after Q R f (returned c, w) q h = tt

  -- From a world with `P`, a part that goes on with `a` leaves one with `Q a`.
  abbrev pub Triple : {A : Type 0} → (W → Type 0) → M W A → (A → W → Type 0) → Type 0
  Triple P m Q = (w : W) → P w → Gives Q (m w)

  -- the same for a part that keeps a condition
  abbrev pub Keeps : {A : Type 0} → (W → Type 0) → M W A → Type 0
  Keeps P m = Triple P m (λ _. P)

  pub Triple-bind :
      {A B : Type 0} (P : W → Type 0) (Q : A → W → Type 0) (R : B → W → Type 0) (m : M W A)
      (f : A → M W B)
      → Triple P m Q
      → ((a : A) → Triple (Q a) (f a) R)
      → Triple P (m >>= f) R
  Triple-bind P Q R m f g h w p = after Q R f (m w) (g w p) h

  pub Keeps-bind :
      {A B : Type 0} (P : W → Type 0) (R : B → W → Type 0) (m : M W A) (f : A → M W B)
      → Keeps P m
      → ((a : A) → Triple P (f a) R)
      → Triple P (m >>= f) R
  Keeps-bind P R m f g h = Triple-bind P (λ _. P) R m f g h

  pub Triple-then :
      {B : Type 0} (P Q : W → Type 0) (R : B → W → Type 0) (m : M W (Unit {0})) (k : M W B)
      → Triple P m (λ _. Q)
      → Triple Q k R
      → Triple P (m >> k) R
  Triple-then P Q R m k g h = Triple-bind P (λ _. Q) R m (λ _. k) g (λ _. h)

  pub Keeps-then :
      {B : Type 0} (P : W → Type 0) (R : B → W → Type 0) (m : M W (Unit {0})) (k : M W B)
      → Keeps P m
      → Triple P k R
      → Triple P (m >> k) R
  Keeps-then P R m k g h = Triple-then P P R m k g h

  checked :
      (Q : W → Type 0) (o : Bool × W)
      → (o.0 ≡ true → Q o.1)
      → Gives {A = Unit {0}}
          (λ _. Q)
          (let (ok, w') = o in elim ok [ true ↦ (value tt, w') | false ↦ (returned 1, w') ])
  checked Q (true, w) h = h refl
  checked Q (false, w) h = tt

  pub Triple-check :
      (P Q : W → Type 0) (call : W → Bool × W)
      → ((w : W) → P w → (call w).0 ≡ true → Q (call w).1)
      → Triple P (check call) (λ _. Q)
  unfolding check
  Triple-check P Q call h w p = checked Q (call w) (h w p)

  obtained :
      (Q : ℕ → W → Type 0) (o : Option ℕ × W)
      → ((a : ℕ) → o.0 ≡ some a → Q a o.1)
      → Gives {A = ℕ} Q
          (let (a, w') = o in elim a [ some x ↦ (value x, w') | none ↦ (returned 1, w') ])
  obtained Q (some a, w) h = h a refl
  obtained Q (none, w) h = tt

  pub Triple-obtain :
      (P : W → Type 0) (Q : ℕ → W → Type 0) (call : W → Option ℕ × W)
      → ((w : W) → P w → (a : ℕ) → (call w).0 ≡ some a → Q a (call w).1)
      → Triple P (obtain call) Q
  unfolding obtain
  Triple-obtain P Q call h w p = obtained Q (call w) (h w p)

  pub Triple-effect :
      (P Q : W → Type 0) (call : W → W)
      → ((w : W) → P w → Q (call w))
      → Triple P (effect call) (λ _. Q)
  unfolding effect
  Triple-effect P Q call h = h
