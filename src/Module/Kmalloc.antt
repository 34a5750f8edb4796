-- ===== src/Module/Kmalloc.antt =====
-- `scif_start` and `scif_end` of module/dma.c and module/sendrecv.c, which take their memory from
-- `kmalloc`. `printk` and the flags of `kmalloc` are left out. The variables of these two modules lack
-- the last four fields of `ScifModule`, which stay at 0.
use xeon_phi_kernel_integrat.Base.{ℕ, zero, suc, ◌*◌, List, [], ◌∷◌, ◌==◌, true}
use xeon_phi_kernel_integrat.Client.Step.{Exit, value, returned, M, ◌>>◌}
use xeon_phi_kernel_integrat.Module.Start.{
  Kernel, ScifModule, cleared, Code, loaded, failed, State, call_step, in_turn, connect_steps,
  ptr_step, random_step, return_ptr_step, recv_step,
}

module _ (k : Kernel) where
  -- `regreturn`, which is compared with the address that was registered
  unfoldable pub ptr_register_step : M (State k) (Unit {0})
  ptr_register_step =
      call_step k (λ d. k.scif_register d.remote_endpoint d.ptr d.len 0) (λ o d. d)
        (λ o d. o == d.ptr)

  unfoldable pub return_register_step : M (State k) (Unit {0})
  return_register_step =
      call_step k (λ d. k.scif_register d.remote_endpoint d.return_ptr d.len d.return_ptr)
        (λ o d. d) (λ o d. o == d.return_ptr)

  unfoldable pub ptr_send_step : M (State k) (Unit {0})
  ptr_send_step = call_step k (λ d. k.scif_send d.remote_endpoint d.ptr) (λ r d. d) (λ r d. r == 8)

  unfoldable pub return_send_step : M (State k) (Unit {0})
  return_send_step =
      call_step k (λ d. k.scif_send d.remote_endpoint d.return_ptr) (λ r d. d) (λ r d. r == 8)

  abbrev pub pages_steps : List (M (State k) (Unit {0}))
  pages_steps =
      ptr_register_step ∷ return_register_step ∷ ptr_send_step ∷ return_send_step ∷ recv_step k ∷ []

  -- the three calls of `kfree`, and `scif_close`
  unfoldable pub release : State k → k.World
  release (d, w) =
      k.scif_close d.endpoint (k.kfree d.placeholder (k.kfree d.ptr (k.kfree d.return_ptr w)))

  -- module/dma.c
  unfoldable pub pages_end : State k → k.World
  pages_end (d, w) = release (
    d,
    k.scif_unregister d.remote_endpoint d.return_ptr d.len
        (k.scif_unregister d.remote_endpoint d.ptr d.len w),
  )

  unfoldable pub pages_steps_done : M (State k) (Unit {0})
  pages_steps_done = do
    in_turn k (connect_steps k (32 * 4096) 23969)
    ptr_step k k.kmalloc
    random_step k
    return_ptr_step k k.kmalloc
    in_turn k pages_steps

  -- `return 0;`, or the code after `exit:`, which is that of `scif_end`, and -1
  unfoldable pub ended_by : (State k → k.World) → Exit (Unit {0}) × State k → Code × State k
  ended_by end (value _, s) = (loaded, s)
  ended_by end (returned _, s) = (failed, (s.0, end s))

  unfoldable pub pages_start : k.World → Code × State k
  pages_start w = ended_by pages_end (pages_steps_done (cleared, w))

  -- module/sendrecv.c: the loop, where no result is read
  unfoldable pub exchange : ℕ → ScifModule → k.World → k.World
  exchange zero d w = w
  exchange (suc n) d w = exchange n d (
      k.scif_recv_into d.remote_endpoint d.ptr d.len
        (k.scif_send_from d.remote_endpoint d.ptr d.len w))

  unfoldable pub exchange_step : M (State k) (Unit {0})
  exchange_step = call_step k (λ d w. (tt {0}, exchange 50000 d w)) (λ _ d. d) (λ _ d. true)

  unfoldable pub latency_steps_done : M (State k) (Unit {0})
  latency_steps_done = do
    in_turn k (connect_steps k 1 23968)
    ptr_step k k.kmalloc
    return_ptr_step k k.kmalloc
    exchange_step

  unfoldable pub latency_end : State k → k.World
  latency_end = release

  unfoldable pub latency_start : k.World → Code × State k
  latency_start w = ended_by latency_end (latency_steps_done (cleared, w))
