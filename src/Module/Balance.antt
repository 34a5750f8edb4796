-- ===== src/Module/Balance.antt =====
-- What becomes of the buffers and endpoints of module/scaling.c, module/scif_dma.c and
-- module/readwrite.c.
use mathlib.Core.Path.{subst}
use xeon_phi_kernel_integrat.Base.{
  ℕ, Bool, true, false, if◌then◌else◌, ◌≡◌, ◌≢◌, inr, refl, sym, arith, ◌∙◌,
}
use xeon_phi_kernel_integrat.Client.Step.{Exit, value, returned}
use xeon_phi_kernel_integrat.Client.Host.{same_bytes}
use xeon_phi_kernel_integrat.Module.Start.{
  Kernel, cleared, Code, loaded, unequal, failed, State, until_done, scif_end, compared,
  not_compared, scif_start, readwrite_start,
}
use xeon_phi_kernel_integrat.Module.Heap.{IsHeap, HoldsTwo, Holds}
use xeon_phi_kernel_integrat.Module.Owned.{On, Good}
use xeon_phi_kernel_integrat.Module.Taken.{until_done_taken}
use xeon_phi_kernel_integrat.Module.Scif.{IsScif}
use xeon_phi_kernel_integrat.Module.Left.{
  IsLeaking, scif_start-IsLeaking, readwrite_start-IsLeaking,
}
use xeon_phi_kernel_integrat.Module.Free.{freed_both}

module _ (k : Kernel) (heap : IsHeap k k.vmalloc k.vfree) (before : ℕ → Bool) where
  -- `scif_end` gives back what is held, whatever that is.
  pub scif_end-Holds :
      (s : State k)
      → On k k.vmalloc k.vfree heap before (Holds before) s
      → (x : ℕ) → heap.owns (scif_end k s) x ≡ before x
  unfolding scif_end
  scif_end-Holds (d, w) h x =
      rw (heap.close_kept d.endpoint (k.vfree d.ptr (k.vfree d.return_ptr w1))) (
        freed_both k k.vmalloc k.vfree heap before d.ptr d.return_ptr w1
          (subst (Holds before d.ptr d.return_ptr) (sym idle) h) x)
    where
      w0 : k.World
      w0 = k.scif_unregister d.remote_endpoint d.regreturn0 d.len w

      w1 : k.World
      w1 = k.scif_unregister d.remote_endpoint d.regreturn1 d.len w0

      idle : heap.owns w1 ≡ heap.owns w
      idle =
          heap.unregister_kept d.remote_endpoint d.regreturn1 d.len w0
          ∙ heap.unregister_kept d.remote_endpoint d.regreturn0 d.len w

  -- What the code that `scif_start` returns says of the buffers: after 0, `scif_end` gives back all
  -- that the module has been handed; after -1, they have been given back; after 1, which does not keep
  -- Linux from loading the module, both are held, until `scif_end` gives them back.
  abbrev pub IsSettled : Code × State k → Type 0
  IsSettled (loaded, s) = (x : ℕ) → heap.owns (scif_end k s) x ≡ before x
  IsSettled (failed, s) = (x : ℕ) → heap.owns s.1 x ≡ before x
  IsSettled (unequal, s) =
      (heap.owns s.1 s.0.ptr ≡ true)
      × (heap.owns s.1 s.0.return_ptr ≡ true)
      × (before s.0.ptr ≡ false)
      × (before s.0.return_ptr ≡ false)
      × (s.0.return_ptr ≢ s.0.ptr)
      × ((x : ℕ) → heap.owns (scif_end k s) x ≡ before x)

  judged :
      (b : Bool) (s : State k)
      → On k k.vmalloc k.vfree heap before (HoldsTwo before) s
      → IsSettled (if b then loaded else unequal, s)
  judged true s h = scif_end-Holds s (inr (inr h))
  judged false (d, w) (pos, pos', unused, unused', other, o) = (
    o d.ptr ∙ ground arith,
    o d.return_ptr ∙ ground arith,
    unused,
    unused',
    other,
    scif_end-Holds (d, w) (inr (inr (pos, pos', unused, unused', other, o))),
  )

  compared-IsSettled :
      (o : Exit (Unit {0}) × State k)
      → Good k k.vmalloc k.vfree heap before (HoldsTwo before) o
      → IsSettled (compared k o)
  unfolding compared
  compared-IsSettled (value a, (d, w)) h =
      judged (same_bytes d.len d.ptr d.return_ptr (k.memory w)) (d, w) h
  compared-IsSettled (returned c, (d, w)) h = scif_end-Holds (d, w) h

  not_compared-IsSettled :
      (o : Exit (Unit {0}) × State k)
      → Good k k.vmalloc k.vfree heap before (HoldsTwo before) o
      → IsSettled (not_compared k o)
  unfolding not_compared
  not_compared-IsSettled (value a, s) h = scif_end-Holds s (inr (inr h))
  not_compared-IsSettled (returned c, (d, w)) h = scif_end-Holds (d, w) h

not_unequal : (k : Kernel) (o : Exit (Unit {0}) × State k) → (not_compared k o).0 ≢ unequal
unfolding not_compared
not_unequal k (value a, s) = λ e. cc
not_unequal k (returned c, s) = λ e. cc

-- The buffers and the endpoints of module/scaling.c and module/scif_dma.c, for any length `n`, with a
-- kernel whose `vmalloc`, `vfree` and SCIF keep to their documentation. A `scif_start` that returns -1
-- has given its buffers back; after one that returns 0, or 1 because the buffers differ, `scif_end`
-- gives them back. But the endpoint that was accepted is never closed: it is open after `scif_end`,
-- and after a failure it is the only one that can be.
pub scif_start_lem :
    (k : Kernel) (heap : IsHeap k k.vmalloc k.vfree) (scif : IsScif k) (n : ℕ) (w : k.World)
    → IsSettled k heap (heap.owns w) (scif_start k n w)
      × IsLeaking k scif w (scif_end k) (scif_start k n w)
unfolding scif_start
scif_start_lem k heap scif n w = (
  compared-IsSettled k heap (heap.owns w) (until_done k n (λ d. d.ptr) (cleared, w))
      (until_done_taken k heap (heap.owns w) n (λ d. d.ptr) (cleared, w) (refl, refl, refl)),
  scif_start-IsLeaking k scif n w,
)

-- The buffers and the endpoints of module/readwrite.c, with a kernel whose `vmalloc`, `vfree` and SCIF
-- keep to their documentation. A `scif_start` that returns -1 has given its buffers back; after one
-- that returns 0, `scif_end` gives them back; it never returns 1. But the endpoint that was accepted
-- is never closed: it is open after `scif_end`, and after a failure it is the only one that can be.
pub readwrite_start_lem :
    (k : Kernel) (heap : IsHeap k k.vmalloc k.vfree) (scif : IsScif k) (w : k.World)
    → IsSettled k heap (heap.owns w) (readwrite_start k w)
      × ((readwrite_start k w).0 ≢ unequal)
      × IsLeaking k scif w (scif_end k) (readwrite_start k w)
unfolding readwrite_start
readwrite_start_lem k heap scif w = (
  not_compared-IsSettled k heap (heap.owns w) (until_done k 4096 (λ d. 0) (cleared, w))
      (until_done_taken k heap (heap.owns w) 4096 (λ d. 0) (cleared, w) (refl, refl, refl)),
  not_unequal k (until_done k 4096 (λ d. 0) (cleared, w)),
  readwrite_start-IsLeaking k scif w,
)
