-- ===== src/Module/Released.antt =====
-- The steps of module/dma.c and module/sendrecv.c, and the buffers that they hold.
use mathlib.Core.Path.{subst}
use xeon_phi_kernel_integrat.Base.{ℕ, zero, suc, Bool, ◌≡◌, inr, refl, sym, ◌∙◌}
use xeon_phi_kernel_integrat.Client.Step.{M}
use xeon_phi_kernel_integrat.Module.Start.{Kernel, ScifModule, State, call_step, recv_step}
use xeon_phi_kernel_integrat.Module.Heap.{IsHeap, HoldsTwo, Holds}
use xeon_phi_kernel_integrat.Module.Owned.{On, Good, AllKeep, keep_rule}
use xeon_phi_kernel_integrat.Module.Free.{freed_both}
use xeon_phi_kernel_integrat.Module.Kmalloc.{
  ptr_register_step, return_register_step, ptr_send_step, return_send_step, pages_steps, release,
  pages_end, exchange, exchange_step,
}

module _ (k : Kernel) (heap : IsHeap k k.kmalloc k.kfree) (before : ℕ → Bool) where
  -- Both buffers have been given back when `kfree` is called on `placeholder`, and `scif_close` on
  -- the endpoint is the last call; where `placeholder` is null, none of the buffers is held at the end.
  abbrev pub IsReleased : ScifModule → k.World → Type 0
  IsReleased d end =
      ((v : k.World) × ((x : ℕ) → heap.owns v x ≡ before x)
        × (end ≡ k.scif_close d.endpoint (k.kfree d.placeholder v)))
      × (d.placeholder ≡ 0 → (x : ℕ) → heap.owns end x ≡ before x)

  pub release-IsReleased :
      (d : ScifModule) (w : k.World)
      → Holds before d.ptr d.return_ptr (heap.owns w)
      → IsReleased d (release k (d, w))
  unfolding release
  release-IsReleased d w h = (
    (v, both, refl),
    (λ null x.
        rw (heap.close_kept d.endpoint (k.kfree d.placeholder v), null, heap.freed_null v)
          (both x)),
  )
    where
      v : k.World
      v = k.kfree d.ptr (k.kfree d.return_ptr w)

      both : (x : ℕ) → heap.owns v x ≡ before x
      both = freed_both k k.kmalloc k.kfree heap before d.ptr d.return_ptr w h

  pub pages_end-IsReleased :
      (d : ScifModule) (w : k.World)
      → Holds before d.ptr d.return_ptr (heap.owns w)
      → IsReleased d (pages_end k (d, w))
  unfolding pages_end
  pages_end-IsReleased d w h =
      let w0 = k.scif_unregister d.remote_endpoint d.ptr d.len w in
      let idle =
        heap.unregister_kept d.remote_endpoint d.return_ptr d.len w0
        ∙ heap.unregister_kept d.remote_endpoint d.ptr d.len w in
      release-IsReleased d (k.scif_unregister d.remote_endpoint d.return_ptr d.len w0)
        (subst (Holds before d.ptr d.return_ptr) (sym idle) h)

  abbrev Keep : M (State k) (Unit {0}) → Type 0
  Keep m =
      (s : State k)
      → On k k.kmalloc k.kfree heap before (HoldsTwo before) s
      → Good k k.kmalloc k.kfree heap before (HoldsTwo before) (m s)

  -- a step that takes and gives nothing
  kept :
      {A : Type 0} (call : ScifModule → k.World → A × k.World) (put : A → ScifModule → ScifModule)
      (test : A → ScifModule → Bool)
      → ((d : ScifModule) (w : k.World) → heap.owns (call d w).1 ≡ heap.owns w)
      → ((a : A) (d : ScifModule) → (put a d).ptr ≡ d.ptr)
      → ((a : A) (d : ScifModule) → (put a d).return_ptr ≡ d.return_ptr)
      → Keep (call_step k call put test)
  kept call put test e same same' =
      keep_rule k k.kmalloc k.kfree heap before (HoldsTwo before) call put test e same same'
        (λ s h. inr (inr h))

  pub pages_keep : AllKeep k k.kmalloc k.kfree heap before (HoldsTwo before) (pages_steps k)
  unfolding ptr_register_step return_register_step ptr_send_step return_send_step recv_step
  pages_keep = (
    kept _ _ _ (λ d. heap.register_kept d.remote_endpoint d.ptr d.len 0) (λ a d. refl)
        (λ a d. refl),
    (
      kept _ _ _ (λ d. heap.register_kept d.remote_endpoint d.return_ptr d.len d.return_ptr)
          (λ a d. refl) (λ a d. refl),
      (
        kept _ _ _ (λ d. heap.send_kept d.remote_endpoint d.ptr) (λ a d. refl) (λ a d. refl),
        (
          kept _ _ _ (λ d. heap.send_kept d.remote_endpoint d.return_ptr) (λ a d. refl)
              (λ a d. refl),
          (kept _ _ _ (λ d. heap.recv_kept d.remote_endpoint) (λ a d. refl) (λ a d. refl), tt),
        ),
      ),
    ),
  )

  exchanged : (n : ℕ) (d : ScifModule) (w : k.World) → heap.owns (exchange k n d w) ≡ heap.owns w
  unfolding exchange
  exchanged zero d w = refl
  exchanged (suc n) d w =
      let w1 = k.scif_send_from d.remote_endpoint d.ptr d.len w in
      exchanged n d (k.scif_recv_into d.remote_endpoint d.ptr d.len w1)
      ∙ heap.recv_into_kept d.remote_endpoint d.ptr d.len w1
      ∙ heap.send_from_kept d.remote_endpoint d.ptr d.len w

  pub exchange-Keep : Keep (exchange_step k)
  unfolding exchange_step
  exchange-Keep = kept _ _ _ (exchanged 50000) (λ a d. refl) (λ a d. refl)
