-- ===== src/Module/KmallocBalance.antt =====
-- What becomes of the buffers and endpoints of module/dma.c and module/sendrecv.c.
use xeon_phi_kernel_integrat.Base.{ℕ, [], ◌∷◌, ◌≡◌, ◌⊎◌, inl, inr, refl}
use xeon_phi_kernel_integrat.Client.Step.{Exit, value, returned, finish}
use xeon_phi_kernel_integrat.Module.Start.{
  Kernel, ScifModule, cleared, Code, loaded, unequal, failed, State, call_step, in_turn,
  connect_steps,
}
use xeon_phi_kernel_integrat.Module.Heap.{IsHeap, HoldsTwo, Holds}
use xeon_phi_kernel_integrat.Module.Owned.{Good, connect_keeps}
use xeon_phi_kernel_integrat.Module.Taken.{taken}
use xeon_phi_kernel_integrat.Module.Kmalloc.{
  release, ended_by, exchange_step, latency_steps_done, latency_end, latency_start,
}
use xeon_phi_kernel_integrat.Module.Released.{release-IsReleased, exchange-Keep}
use xeon_phi_kernel_integrat.Module.FromPeer.{FromPeer}
use xeon_phi_kernel_integrat.Module.Scif.{IsScif}
use xeon_phi_kernel_integrat.Module.Left.{IsLeaking, latency_start-IsLeaking}
use xeon_phi_kernel_integrat.Module.Null.{latency_steps_done-Null}

module _ (k : Kernel) (heap : IsHeap k k.kmalloc k.kfree) (w : k.World) where
  abbrev pub Owned : Exit (Unit {0}) × State k → Type 0
  Owned o = Good k k.kmalloc k.kfree heap (heap.owns w) (HoldsTwo (heap.owns w)) o

  latency-Owned : Owned (latency_steps_done k (cleared, w))
  unfolding latency_steps_done in_turn exchange_step call_step
  latency-Owned =
      taken k k.kmalloc k.kfree heap (heap.owns w) (connect_steps k 1 23968) (exchange_step k ∷ [])
        (finish tt) (connect_keeps k k.kmalloc k.kfree heap (heap.owns w) 1 23968) (λ s h. h)
        (exchange-Keep k heap (heap.owns w), tt) (cleared, w) (refl, refl, refl)

  -- `P` holds of what `scif_end` leaves after a `scif_start` that has returned 0, and of what a
  -- `scif_start` leaves that has returned -1.
  abbrev pub IsBalanced :
      (ScifModule → k.World → Type 0) → (State k → k.World) → Code × State k → Type 0
  IsBalanced P end (c, s) = ((c ≡ loaded) × P s.0 (end s)) ⊎ ((c ≡ failed) × P s.0 s.1)

  settled :
      (P : ScifModule → k.World → Type 0) (end : State k → k.World) (o : Exit (Unit {0}) × State k)
      → Owned o
      → (Holds (heap.owns w) o.1.0.ptr o.1.0.return_ptr (heap.owns o.1.1) → P o.1.0 (end o.1))
      → IsBalanced P end (ended_by k end o)
  unfolding ended_by
  settled P end (value a, s) h g = inl (refl, g (inr (inr h)))
  settled P end (returned c, s) h g = inr (refl, g h)

  -- what is said of the pointer that is received, where the code is 0
  abbrev pub IsReceived : Code × State k → Type 0
  IsReceived (loaded, s) = FromPeer k s
  IsReceived (unequal, s) = ⊥
  IsReceived (failed, s) = Unit {0}

-- The buffers and the endpoints of module/sendrecv.c, with a kernel whose `kmalloc`, `kfree` and SCIF
-- keep to their documentation. `scif_end` gives the buffers back after a `scif_start` that returns 0,
-- and one that returns -1 has given them back itself, where both call `kfree` on a `placeholder` that
-- is never set; `scif_start` never returns 1. But the endpoint that was accepted is never closed: it is
-- open after `scif_end`, and after a failure it is the only one that can be.
pub latency_start_lem :
    (k : Kernel) (heap : IsHeap k k.kmalloc k.kfree) (scif : IsScif k) (w : k.World)
    → IsBalanced k heap w
        (λ d end. (x : ℕ) → heap.owns end x ≡ heap.owns w x)
        (latency_end k)
        (latency_start k w)
      × IsLeaking k scif w (latency_end k) (latency_start k w)
unfolding latency_start latency_end
latency_start_lem k heap scif w =
    let s = (latency_steps_done k (cleared, w)).1 in
    (
      settled k heap w (λ d end. (x : ℕ) → heap.owns end x ≡ heap.owns w x) (release k)
          (latency_steps_done k (cleared, w)) (latency-Owned k heap w)
          (λ h.
            (release-IsReleased k heap (heap.owns w) s.0 s.1 h).1
              (latency_steps_done-Null k (cleared, w) refl)),
      latency_start-IsLeaking k scif w,
    )
