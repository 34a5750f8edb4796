-- ===== src/Module/Start.antt =====
-- `scif_start` and `scif_end` of module/scaling.c and module/scif_dma.c, which differ in the length
-- alone, and of module/readwrite.c. `printk` is left out.
use xeon_phi_kernel_integrat.Base.{
  ℕ, zero, suc, ◌*◌, List, [], ◌∷◌, ◌==◌, Bool, true, false, if◌then◌else◌,
}
use xeon_phi_kernel_integrat.Memory.{Memory}
use xeon_phi_kernel_integrat.Client.Step.{Exit, value, returned, M, ◌>>◌, finish}
use xeon_phi_kernel_integrat.Client.Host.{same_bytes}

-- What the modules call: SCIF inside the kernel, and the kernel's own functions. A null pointer is 0.
-- `scif_accept` and `scif_recv` give their result and what is in the variable after the call;
-- `scif_send_from` and `scif_recv_into` are `scif_send` and `scif_recv` on a buffer, where the result is
-- not read.
pub record Kernel : Type 1 where
  pub World : Type 0
  pub memory : World → Memory
  pub scif_open : World → ℕ × World
  pub scif_bind : ℕ → ℕ → World → ℕ × World
  pub scif_listen : ℕ → ℕ → World → ℕ × World
  pub scif_accept : ℕ → World → (ℕ × ℕ) × World
  pub vmalloc : ℕ → World → ℕ × World
  pub kmalloc : ℕ → World → ℕ × World
  pub get_random_bytes : ℕ → ℕ → World → World
  pub scif_register : ℕ → ℕ → ℕ → ℕ → World → ℕ × World
  pub scif_send : ℕ → ℕ → World → ℕ × World
  pub scif_recv : ℕ → World → (ℕ × ℕ) × World
  pub scif_send_from : ℕ → ℕ → ℕ → World → World
  pub scif_recv_into : ℕ → ℕ → ℕ → World → World
  pub scif_unregister : ℕ → ℕ → ℕ → World → World
  pub vfree : ℕ → World → World
  pub kfree : ℕ → World → World
  pub scif_close : ℕ → World → World

-- `struct scifmodule`
pub record ScifModule : Type 0 where
  pub len : ℕ
  pub endpoint : ℕ
  pub remote_endpoint : ℕ
  pub port : ℕ
  pub ptr : ℕ
  pub return_ptr : ℕ
  pub placeholder : ℕ
  pub send_offset0 : ℕ
  pub send_offset1 : ℕ
  pub regreturn0 : ℕ
  pub regreturn1 : ℕ

-- the global variable when the module is loaded
abbrev pub cleared : ScifModule
cleared = record {
  len = 0;
  endpoint = 0;
  remote_endpoint = 0;
  port = 0;
  ptr = 0;
  return_ptr = 0;
  placeholder = 0;
  send_offset0 = 0;
  send_offset1 = 0;
  regreturn0 = 0;
  regreturn1 = 0;
}

-- what `scif_start` returns: 0, 1 or -1
pub data Code : Type 0 where
  loaded : Code
  unequal : Code
  failed : Code

module _ (k : Kernel) where
  -- the module's variable and the world
  abbrev pub State : Type 0
  State = ScifModule × k.World

  -- A call, what it leaves in the variable, and the test that goes to `exit` where it fails.
  unfoldable pub call_step :
      {A : Type 0}
      → (ScifModule → k.World → A × k.World)
      → (A → ScifModule → ScifModule)
      → (A → ScifModule → Bool)
      → M State (Unit {0})
  call_step call put test (d, w) =
      let (a, w') = call d w in (if test a (put a d) then value tt else returned 0, (put a d, w'))

  unfoldable pub non_null : ℕ → Bool
  non_null zero = false
  non_null (suc a) = true

  -- one step after the other
  unfoldable pub in_turn : List (M State (Unit {0})) → M State (Unit {0})
  in_turn [] = finish tt
  in_turn (m ∷ ms) = m >> in_turn ms

  unfoldable pub name_step : ℕ → ℕ → M State (Unit {0})
  name_step n p =
      call_step (λ d w. (tt {0}, w)) (λ _ d. record d { len = n; port = p }) (λ _ d. true)

  unfoldable pub open_step : M State (Unit {0})
  open_step = call_step (λ d. k.scif_open) (λ e d. record d { endpoint = e }) (λ e d. non_null e)

  unfoldable pub bind_step : M State (Unit {0})
  bind_step = call_step (λ d. k.scif_bind d.endpoint d.port) (λ r d. d) (λ r d. r == d.port)

  unfoldable pub listen_step : M State (Unit {0})
  listen_step = call_step (λ d. k.scif_listen d.endpoint 4) (λ r d. d) (λ r d. r == 0)

  unfoldable pub accept_step : M State (Unit {0})
  accept_step =
      call_step (λ d. k.scif_accept d.endpoint) (λ r d. record d { remote_endpoint = r.1 })
        (λ r d. r.0 == 0)

  -- `alloc` is the kernel's function that the module takes its memory from.
  unfoldable pub ptr_step : (ℕ → k.World → ℕ × k.World) → M State (Unit {0})
  ptr_step alloc = call_step (λ d. alloc d.len) (λ a d. record d { ptr = a }) (λ a d. non_null a)

  unfoldable pub random_step : M State (Unit {0})
  random_step =
      call_step (λ d w. (tt {0}, k.get_random_bytes d.ptr d.len w)) (λ _ d. d) (λ _ d. true)

  unfoldable pub return_ptr_step : (ℕ → k.World → ℕ × k.World) → M State (Unit {0})
  return_ptr_step alloc =
      call_step (λ d. alloc d.len) (λ a d. record d { return_ptr = a }) (λ a d. non_null a)

  -- `offset` is what the first `scif_register` asks for.
  unfoldable pub register0_step : (ScifModule → ℕ) → M State (Unit {0})
  register0_step offset =
      call_step (λ d. k.scif_register d.remote_endpoint d.ptr d.len (offset d))
        (λ o d. record d { regreturn0 = o; send_offset0 = o }) (λ o d. true)

  unfoldable pub send0_step : M State (Unit {0})
  send0_step =
      call_step (λ d. k.scif_send d.remote_endpoint d.send_offset0) (λ r d. d) (λ r d. true)

  unfoldable pub register1_step : M State (Unit {0})
  register1_step =
      call_step (λ d. k.scif_register d.remote_endpoint d.return_ptr d.len d.return_ptr)
        (λ o d. record d { regreturn1 = o; send_offset1 = o }) (λ o d. true)

  unfoldable pub send1_step : M State (Unit {0})
  send1_step =
      call_step (λ d. k.scif_send d.remote_endpoint d.send_offset1) (λ r d. d) (λ r d. true)

  unfoldable pub recv_step : M State (Unit {0})
  recv_step =
      call_step (λ d. k.scif_recv d.remote_endpoint) (λ r d. record d { placeholder = r.1 })
        (λ r d. r.0 == 8)

  abbrev pub connect_steps : ℕ → ℕ → List (M State (Unit {0}))
  connect_steps n p = name_step n p ∷ open_step ∷ bind_step ∷ listen_step ∷ accept_step ∷ []

  abbrev pub serve_steps : (ScifModule → ℕ) → List (M State (Unit {0}))
  serve_steps offset =
      register0_step offset ∷ send0_step ∷ register1_step ∷ send1_step ∷ recv_step ∷ []

  -- up to the end of the wait for the card
  unfoldable pub until_done : ℕ → (ScifModule → ℕ) → M State (Unit {0})
  until_done n offset = do
    in_turn (connect_steps n 23969)
    ptr_step k.vmalloc
    random_step
    return_ptr_step k.vmalloc
    in_turn (serve_steps offset)

  -- the code after `exit:`, which is that of `scif_end`
  unfoldable pub scif_end : State → k.World
  scif_end (d, w) = k.scif_close d.endpoint (
      k.vfree d.ptr (
        k.vfree d.return_ptr (
          k.scif_unregister d.remote_endpoint d.regreturn1 d.len
            (k.scif_unregister d.remote_endpoint d.regreturn0 d.len w))))

  -- `memcmp`, and what `scif_start` returns
  unfoldable pub compared : Exit (Unit {0}) × State → Code × State
  compared (value _, (d, w)) =
      (if same_bytes d.len d.ptr d.return_ptr (k.memory w) then loaded else unequal, (d, w))
  compared (returned _, (d, w)) = (failed, (d, scif_end (d, w)))

  unfoldable pub scif_start : ℕ → k.World → Code × State
  scif_start n w = compared (until_done n (λ d. d.ptr) (cleared, w))

  unfoldable pub scaling_start : k.World → Code × State
  scaling_start = scif_start (131072 * 4096)

  unfoldable pub dma_start : k.World → Code × State
  dma_start = scif_start (262144 * 4096)

  -- module/readwrite.c, which asks for the offset 0 and compares nothing
  unfoldable pub not_compared : Exit (Unit {0}) × State → Code × State
  not_compared (value _, s) = (loaded, s)
  not_compared (returned _, (d, w)) = (failed, (d, scif_end (d, w)))

  unfoldable pub readwrite_start : k.World → Code × State
  readwrite_start w = not_compared (until_done 4096 (λ d. 0) (cleared, w))
