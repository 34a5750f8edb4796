-- ===== src/Client/Connect.antt =====
-- The attempts to connect, which every program of the card makes.
use native.Mathlib.Decide.{ℕ_discrete}
use xeon_phi_kernel_integrat.Base.{
  ℕ, zero, suc, ◌+◌, ◌≤◌, ◌<◌, Bool, true, false, ◌≡◌, ◌⊎◌, inl, inr, refl, ap, sym, arith, ◌∙◌,
}
use xeon_phi_kernel_integrat.Client.Library.{Scif}
use xeon_phi_kernel_integrat.Client.Step.{retry, connect}

module _ (lib : Scif) (port endpoint : ℕ) (start : lib.World) where
  -- Attempt `n`, a second after the one before, as if all before it had failed.
  unfoldable pub attempt : ℕ → Bool × lib.World
  attempt zero = lib.scif_connect endpoint 0 port start
  attempt (suc n) = lib.scif_connect endpoint 0 port (lib.sleep 1 (attempt n).1)

  -- `o` is the outcome of the first attempt that succeeds, or of attempt `most` where none does
  -- up to there.
  pub record IsFirst (most : ℕ) (o : Bool × lib.World) : Type 0 where
    pub number : ℕ
    pub bounded : number ≤ most
    pub outcome : o ≡ attempt number
    pub before : (j : ℕ) → j < number → (attempt j).0 ≡ false
    pub last : ((attempt number).0 ≡ true) ⊎ (number ≡ most)

  -- What is known of the attempts so far, after one more that failed.
  one_more :
      (k : ℕ) (w : lib.World)
      → (false, w) ≡ attempt k
      → ((j : ℕ) → j < k → (attempt j).0 ≡ false)
      → (j : ℕ) → j < suc k
      → (attempt j).0 ≡ false
  one_more k w e failed j p = elim (ℕ_discrete j k) [
    | yes same ↦ ap (λ n. (attempt n).0) same ∙ sym (ap (λ (o : Bool × lib.World). o.0) e)
    | no ne ↦ failed j (omega arith)
  ]

  retry_on :
      (most left k : ℕ) (o : Bool × lib.World)
      → k + left ≡ most
      → o ≡ attempt k
      → ((j : ℕ) → j < k → (attempt j).0 ≡ false)
      → IsFirst most (retry lib port left endpoint o.0 o.1)
  unfolding retry attempt
  retry_on most zero k (ret, w) sum e failed = record {
    number = k;
    bounded = omega arith;
    outcome = e;
    before = failed;
    last = inr (omega arith);
  }
  retry_on most (suc left) k (true, w) sum e failed = record {
    number = k;
    bounded = omega arith;
    outcome = e;
    before = failed;
    last = inl (sym (ap (λ (o : Bool × lib.World). o.0) e));
  }
  retry_on most (suc left) k (false, w) sum e failed =
      retry_on most left (suc k) (lib.scif_connect endpoint 0 port (lib.sleep 1 w)) (omega arith)
        (ap (λ (o : Bool × lib.World). lib.scif_connect endpoint 0 port (lib.sleep 1 o.1)) e)
        (one_more k w e failed)

  -- The card connects as soon as it can, and gives up after eleven attempts: what `connect` gives is
  -- the outcome of the first attempt that succeeds, each a second after the one before, or that of
  -- the eleventh where none of the first ten succeeds.
  pub connect_lem : IsFirst 10 (connect lib port endpoint start)
  unfolding connect attempt
  connect_lem =
      retry_on 10 10 0 (lib.scif_connect endpoint 0 port start) refl refl
        (λ j p. absurd (omega arith))
