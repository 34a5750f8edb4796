-- ===== src/Module/Taken.antt =====
-- How `scif_start` takes its two buffers.
use xeon_phi_kernel_integrat.Base.{
  ℕ, zero, suc, Bool, true, false, ◌||◌, ◌==◌, List, ◌≡◌, ◌≢◌, inl, inr, ap, sym, arith, ◌∙◌,
}
use xeon_phi_kernel_integrat.Client.Step.{Exit, M, ◌>>◌}
use xeon_phi_kernel_integrat.Module.Start.{
  Kernel, ScifModule, State, call_step, non_null, in_turn, ptr_step, random_step, return_ptr_step,
  connect_steps, serve_steps, until_done,
}
use xeon_phi_kernel_integrat.Module.Heap.{IsHeap, HoldsNone, HoldsOne, HoldsTwo}
use xeon_phi_kernel_integrat.Module.Owned.{
  On, Good, AllKeep, then_rule, in_turn_rule, tested, connect_keeps, serve_keeps, random_keeps,
}

pub not_null : (k : Kernel) (a : ℕ) → a ≡ 0 → non_null k a ≡ true → ⊥
unfolding non_null
not_null k zero e ok = cc
not_null k (suc a) e ok = omega (arith, e)

pub apart : (a p : ℕ) (b : Bool) → ((a == p) || b) ≡ false → (a ≢ p) × (b ≡ false)
apart a p b e = ((λ q. ground (arith, e, q)), ground (arith, e))

module _ (k : Kernel) (alloc : ℕ → k.World → ℕ × k.World) (free : ℕ → k.World → k.World)
    (heap : IsHeap k alloc free) (before : ℕ → Bool) where
  abbrev Now : (ℕ → ℕ → (ℕ → Bool) → Type 0) → State k → Type 0
  Now P s = On k alloc free heap before P s

  abbrev Done : (ℕ → ℕ → (ℕ → Bool) → Type 0) → Exit (Unit {0}) × State k → Type 0
  Done Q o = Good k alloc free heap before Q o

  pub ptr_taken :
      (s : State k) → Now (HoldsNone before) s → Done (HoldsOne before) (ptr_step k alloc s)
  unfolding ptr_step call_step
  ptr_taken (d, w) (p, r, o) =
      let a = (alloc d.len w).0 in
      let s' : State k = (record d { ptr = a }, (alloc d.len w).1) in
      elim (heap.allocated d.len w) [
        | inl (null, same) ↦
            tested k alloc free heap before (HoldsNone before) (HoldsOne before) (non_null k a) s'
              (λ ok. absurd (not_null k a null ok)) (λ _. inl) (null, r, same ∙ o)
        | inr (some, fresh, owned) ↦
            tested k alloc free heap before (HoldsOne before) (HoldsOne before) (non_null k a) s'
              (λ _ q. q) (λ _ q. inr (inl q))
              (
                some,
                r,
                ap (λ (f : ℕ → Bool). f a) (sym o) ∙ fresh,
                (λ x. owned x ∙ ap (λ (f : ℕ → Bool). (x == a) || f x) o),
              )
      ]

  pub return_ptr_taken :
      (s : State k) → Now (HoldsOne before) s → Done (HoldsTwo before) (return_ptr_step k alloc s)
  unfolding return_ptr_step call_step
  return_ptr_taken (d, w) (pos, r, unused, o) =
      let a = (alloc d.len w).0 in
      let s' : State k = (record d { return_ptr = a }, (alloc d.len w).1) in
      elim (heap.allocated d.len w) [
        | inl (null, same) ↦
            tested k alloc free heap before (HoldsOne before) (HoldsTwo before) (non_null k a) s'
              (λ ok. absurd (not_null k a null ok)) (λ _ q. inr (inl q))
              (pos, null, unused, (λ x. ap (λ (f : ℕ → Bool). f x) same ∙ o x))
        | inr (some, fresh, owned) ↦
            let (other, new) = apart a d.ptr (before a) (sym (o a) ∙ fresh) in
            tested k alloc free heap before (HoldsTwo before) (HoldsTwo before) (non_null k a) s'
              (λ _ q. q) (λ _ q. inr (inr q))
              (pos, some, unused, new, other, (λ x. owned x ∙ ap (λ b. (x == a) || b) (o x)))
      ]

  -- What goes through these steps holds two buffers, or what the code after `exit:` gives back
  pub taken :
      (first last : List (M (State k) (Unit {0}))) (between : M (State k) (Unit {0}))
      → AllKeep k alloc free heap before (HoldsNone before) first
      → ((s : State k)
          → On k alloc free heap before (HoldsOne before) s
          → Good k alloc free heap before (HoldsOne before) (between s))
      → AllKeep k alloc free heap before (HoldsTwo before) last
      → (s : State k) → On k alloc free heap before (HoldsNone before) s
      → Good k alloc free heap before (HoldsTwo before) (
          (in_turn k first
              >> (ptr_step k alloc >> (between >> (return_ptr_step k alloc >> in_turn k last))))
            s)
  taken first last between keep keep1 keep2 s p =
      then_rule k alloc free heap before (HoldsNone before) (HoldsTwo before) (in_turn k first)
        (ptr_step k alloc >> (between >> (return_ptr_step k alloc >> in_turn k last))) s
        (in_turn_rule k alloc free heap before (HoldsNone before) first keep s p)
        λ s1 p1.
          then_rule k alloc free heap before (HoldsOne before) (HoldsTwo before) (ptr_step k alloc)
            (between >> (return_ptr_step k alloc >> in_turn k last)) s1 (ptr_taken s1 p1)
            λ s2 p2.
              then_rule k alloc free heap before (HoldsOne before) (HoldsTwo before) between
                (return_ptr_step k alloc >> in_turn k last) s2 (keep1 s2 p2)
                λ s3 p3.
                  then_rule k alloc free heap before (HoldsTwo before) (HoldsTwo before)
                    (return_ptr_step k alloc) (in_turn k last) s3 (return_ptr_taken s3 p3)
                    (in_turn_rule k alloc free heap before (HoldsTwo before) last keep2)

-- In all, `until_done` takes two buffers, or holds what `scif_end` gives back.
pub until_done_taken :
    (k : Kernel) (heap : IsHeap k k.vmalloc k.vfree) (before : ℕ → Bool) (n : ℕ)
    (offset : ScifModule → ℕ) (s : State k)
    → On k k.vmalloc k.vfree heap before (HoldsNone before) s
    → Good k k.vmalloc k.vfree heap before (HoldsTwo before) (until_done k n offset s)
unfolding until_done
until_done_taken k heap before n offset =
    taken k k.vmalloc k.vfree heap before (connect_steps k n 23969) (serve_steps k offset)
      (random_step k) (connect_keeps k k.vmalloc k.vfree heap before n 23969)
      (random_keeps k k.vmalloc k.vfree heap before)
      (serve_keeps k k.vmalloc k.vfree heap before offset)
