-- ===== src/Module/Closed.antt =====
-- What becomes of the endpoints that the kernel modules of the host open.
use xeon_phi_kernel_integrat.Base.{ℕ, zero, suc, ◌*◌, Bool, ◌≡◌, inr, refl, ◌∙◌}
use xeon_phi_kernel_integrat.Client.Step.{M}
use xeon_phi_kernel_integrat.Module.Start.{
  Kernel, ScifModule, State, call_step, in_turn, connect_steps, ptr_step, random_step,
  return_ptr_step, serve_steps, register0_step, send0_step, register1_step, send1_step, recv_step,
  until_done,
}
use xeon_phi_kernel_integrat.Module.Kmalloc.{
  ptr_register_step, return_register_step, ptr_send_step, return_send_step, pages_steps,
  pages_steps_done, exchange, exchange_step, latency_steps_done,
}
use xeon_phi_kernel_integrat.Module.Scif.{IsScif, OpensNone, OpensTwo}
use xeon_phi_kernel_integrat.Module.Open.{
  Makes, AllKeep, Makes-then, Makes-in_turn, keep_rule, connect-Makes,
}

module _ (k : Kernel) (scif : IsScif k) (before : ℕ → Bool) where
  abbrev Keep : M (State k) (Unit {0}) → Type 0
  Keep m = Makes k scif before OpensTwo OpensTwo m

  -- a step that opens and closes nothing
  kept :
      {A : Type 0} (call : ScifModule → k.World → A × k.World) (put : A → ScifModule → ScifModule)
      (test : A → ScifModule → Bool)
      → ((d : ScifModule) (w : k.World) → scif.is_open (call d w).1 ≡ scif.is_open w)
      → ((a : A) (d : ScifModule) → (put a d).endpoint ≡ d.endpoint)
      → ((a : A) (d : ScifModule) → (put a d).remote_endpoint ≡ d.remote_endpoint)
      → Keep (call_step k call put test)
  kept call put test e same same' =
      keep_rule k scif before OpensTwo call put test e same same' (λ s h. inr (inr h))

  ptr-Keep :
      (alloc : ℕ → k.World → ℕ × k.World)
      → ((n : ℕ) (w : k.World) → scif.is_open (alloc n w).1 ≡ scif.is_open w)
      → Keep (ptr_step k alloc)
  unfolding ptr_step
  ptr-Keep alloc e = kept _ _ _ (λ d. e d.len) (λ a d. refl) (λ a d. refl)

  return_ptr-Keep :
      (alloc : ℕ → k.World → ℕ × k.World)
      → ((n : ℕ) (w : k.World) → scif.is_open (alloc n w).1 ≡ scif.is_open w)
      → Keep (return_ptr_step k alloc)
  unfolding return_ptr_step
  return_ptr-Keep alloc e = kept _ _ _ (λ d. e d.len) (λ a d. refl) (λ a d. refl)

  random-Keep : Keep (random_step k)
  unfolding random_step
  random-Keep = kept _ _ _ (λ d. scif.random_kept d.ptr d.len) (λ a d. refl) (λ a d. refl)

  recv-Keep : Keep (recv_step k)
  unfolding recv_step
  recv-Keep = kept _ _ _ (λ d. scif.recv_kept d.remote_endpoint) (λ a d. refl) (λ a d. refl)

  serve_keep : (offset : ScifModule → ℕ) → AllKeep k scif before OpensTwo (serve_steps k offset)
  unfolding register0_step send0_step register1_step send1_step
  serve_keep offset = (
    kept _ _ _ (λ d. scif.register_kept d.remote_endpoint d.ptr d.len (offset d)) (λ a d. refl)
        (λ a d. refl),
    (
      kept _ _ _ (λ d. scif.send_kept d.remote_endpoint d.send_offset0) (λ a d. refl) (λ a d. refl),
      (
        kept _ _ _ (λ d. scif.register_kept d.remote_endpoint d.return_ptr d.len d.return_ptr)
            (λ a d. refl) (λ a d. refl),
        (
          kept _ _ _ (λ d. scif.send_kept d.remote_endpoint d.send_offset1) (λ a d. refl)
              (λ a d. refl),
          (recv-Keep, tt),
        ),
      ),
    ),
  )

  pages_keep : AllKeep k scif before OpensTwo (pages_steps k)
  unfolding ptr_register_step return_register_step ptr_send_step return_send_step
  pages_keep = (
    kept _ _ _ (λ d. scif.register_kept d.remote_endpoint d.ptr d.len 0) (λ a d. refl)
        (λ a d. refl),
    (
      kept _ _ _ (λ d. scif.register_kept d.remote_endpoint d.return_ptr d.len d.return_ptr)
          (λ a d. refl) (λ a d. refl),
      (
        kept _ _ _ (λ d. scif.send_kept d.remote_endpoint d.ptr) (λ a d. refl) (λ a d. refl),
        (
          kept _ _ _ (λ d. scif.send_kept d.remote_endpoint d.return_ptr) (λ a d. refl)
              (λ a d. refl),
          (recv-Keep, tt),
        ),
      ),
    ),
  )

  exchanged :
      (n : ℕ) (d : ScifModule) (w : k.World) → scif.is_open (exchange k n d w) ≡ scif.is_open w
  unfolding exchange
  exchanged zero d w = refl
  exchanged (suc n) d w =
      let w1 = k.scif_send_from d.remote_endpoint d.ptr d.len w in
      exchanged n d (k.scif_recv_into d.remote_endpoint d.ptr d.len w1)
      ∙ scif.recv_into_kept d.remote_endpoint d.ptr d.len w1
      ∙ scif.send_from_kept d.remote_endpoint d.ptr d.len w

  exchange-Keep : Keep (exchange_step k)
  unfolding exchange_step
  exchange-Keep = kept _ _ _ (exchanged 50000) (λ a d. refl) (λ a d. refl)

  pub until_done-Makes :
      (n : ℕ) (offset : ScifModule → ℕ)
      → Makes k scif before OpensNone OpensTwo (until_done k n offset)
  unfolding until_done
  until_done-Makes n offset =
      Makes-then k scif before OpensNone OpensTwo OpensTwo (in_turn k (connect_steps k n 23969)) _
        (connect-Makes k scif before n 23969)
        (Makes-then k scif before OpensTwo OpensTwo OpensTwo (ptr_step k k.vmalloc) _
          (ptr-Keep k.vmalloc scif.vmalloc_kept)
          (Makes-then k scif before OpensTwo OpensTwo OpensTwo (random_step k) _ random-Keep (
            Makes-then k scif before OpensTwo OpensTwo OpensTwo (return_ptr_step k k.vmalloc)
              (in_turn k (serve_steps k offset)) (return_ptr-Keep k.vmalloc scif.vmalloc_kept)
              (Makes-in_turn k scif before OpensTwo (serve_steps k offset) (serve_keep offset)))))

  pub pages-Makes : Makes k scif before OpensNone OpensTwo (pages_steps_done k)
  unfolding pages_steps_done
  pages-Makes =
      Makes-then k scif before OpensNone OpensTwo OpensTwo
        (in_turn k (connect_steps k (32 * 4096) 23969)) _
        (connect-Makes k scif before (32 * 4096) 23969)
        (Makes-then k scif before OpensTwo OpensTwo OpensTwo (ptr_step k k.kmalloc) _
          (ptr-Keep k.kmalloc scif.kmalloc_kept)
          (Makes-then k scif before OpensTwo OpensTwo OpensTwo (random_step k) _ random-Keep (
            Makes-then k scif before OpensTwo OpensTwo OpensTwo (return_ptr_step k k.kmalloc)
              (in_turn k (pages_steps k)) (return_ptr-Keep k.kmalloc scif.kmalloc_kept)
              (Makes-in_turn k scif before OpensTwo (pages_steps k) pages_keep))))

  pub latency-Makes : Makes k scif before OpensNone OpensTwo (latency_steps_done k)
  unfolding latency_steps_done
  latency-Makes =
      Makes-then k scif before OpensNone OpensTwo OpensTwo (in_turn k (connect_steps k 1 23968)) _
        (connect-Makes k scif before 1 23968)
        (Makes-then k scif before OpensTwo OpensTwo OpensTwo (ptr_step k k.kmalloc) _
          (ptr-Keep k.kmalloc scif.kmalloc_kept)
          (Makes-then k scif before OpensTwo OpensTwo OpensTwo (return_ptr_step k k.kmalloc)
            (exchange_step k) (return_ptr-Keep k.kmalloc scif.kmalloc_kept) exchange-Keep))
