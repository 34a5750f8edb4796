-- ===== src/Module/Free.antt =====
-- How a module gives its buffers back.
use native.Mathlib.Decide.{ℕ_discrete}
use xeon_phi_kernel_integrat.Base.{
  ℕ, ◌<◌, Bool, true, false, ◌||◌, ◌==◌, if◌then◌else◌, ◌≡◌, ◌≢◌, inl, inr, ap, arith, ◌∙◌,
}
use xeon_phi_kernel_integrat.Module.Start.{Kernel}
use xeon_phi_kernel_integrat.Module.Heap.{IsHeap, Holds}

pub put_back :
    (x p : ℕ) (b : Bool) → (x ≡ p → b ≡ false) → (if x == p then false else ((x == p) || b)) ≡ b
put_back x p b h = elim (ℕ_discrete x p) [
  | yes e ↦ let out = h e in ground (arith, e, out)
  | no ne ↦ ground (arith, ne)
]

neither : (r p : ℕ) (b : Bool) → r ≢ p → b ≡ false → ((r == p) || b) ≡ false
neither r p b ne e = ground (arith, ne, e)

module _ (k : Kernel) (alloc : ℕ → k.World → ℕ × k.World) (free : ℕ → k.World → k.World)
    (heap : IsHeap k alloc free) (before : ℕ → Bool) where
  -- the one buffer that is held
  freed_one :
      (p : ℕ) (w : k.World) (x : ℕ)
      → 0 < p
      → before p ≡ false
      → ((y : ℕ) → heap.owns w y ≡ ((y == p) || before y))
      → heap.owns (free p w) x ≡ before x
  freed_one p w x pos unused o =
      let held : heap.owns w p ≡ true = o p ∙ ground arith in
      heap.freed p w pos held x
      ∙ ap (λ b. if x == p then false else b) (o x)
      ∙ put_back x p (before x) (λ e. ap before e ∙ unused)

  -- the second of two
  freed_two :
      (p r : ℕ) (w : k.World) (x : ℕ)
      → 0 < r
      → before r ≡ false
      → r ≢ p
      → ((y : ℕ) → heap.owns w y ≡ ((y == r) || ((y == p) || before y)))
      → heap.owns (free r w) x ≡ ((x == p) || before x)
  freed_two p r w x pos unused other o =
      let held : heap.owns w r ≡ true = o r ∙ ground arith in
      heap.freed r w pos held x
      ∙ ap (λ b. if x == r then false else b) (o x)
      ∙ put_back x r ((x == p) || before x)
          (λ e. ap (λ y. (y == p) || before y) e ∙ neither r p (before r) other unused)

  -- The two calls at the end give back what is held, whatever that is.
  pub freed_both :
      (p r : ℕ) (w : k.World)
      → Holds before p r (heap.owns w)
      → (x : ℕ) → heap.owns (free p (free r w)) x ≡ before x
  freed_both p r w h x = elim h [
    | inl (p0, r0, o) ↦
        rw (p0, heap.freed_null (free r w))
          (rw (r0, heap.freed_null w) (ap (λ (f : ℕ → Bool). f x) o))
    | inr (inl (pos, r0, unused, o)) ↦ freed_one p (free r w) x pos unused (λ y.
        let null : heap.owns (free r w) ≡ heap.owns w = rw r0 (heap.freed_null w) in
        ap (λ (f : ℕ → Bool). f y) null ∙ o y)
    | inr (inr (pos, pos', unused, unused', other, o)) ↦
        freed_one p (free r w) x pos unused (λ y. freed_two p r w y pos' unused' other o)
  ]
