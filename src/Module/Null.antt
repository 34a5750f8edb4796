-- ===== src/Module/Null.antt =====
-- The pointer of module/sendrecv.c that is null from the start to the end.
use xeon_phi_kernel_integrat.Base.{ℕ, Bool, List, [], ◌∷◌, ◌≡◌, refl, ◌∙◌}
use xeon_phi_kernel_integrat.Client.Step.{Exit, value, returned, M, ◌>>◌}
use xeon_phi_kernel_integrat.Module.Start.{
  Kernel, ScifModule, State, call_step, in_turn, connect_steps, name_step, open_step, bind_step,
  listen_step, accept_step, ptr_step, return_ptr_step,
}
use xeon_phi_kernel_integrat.Module.Kmalloc.{exchange_step, latency_steps_done}

module _ (k : Kernel) where
  abbrev NullNow : Exit (Unit {0}) × State k → Type 0
  NullNow (r, s) = s.0.placeholder ≡ 0

  abbrev pub Null : M (State k) (Unit {0}) → Type 0
  Null m = (s : State k) → s.0.placeholder ≡ 0 → NullNow (m s)

  Null-call :
      {A : Type 0} (call : ScifModule → k.World → A × k.World) (put : A → ScifModule → ScifModule)
      (test : A → ScifModule → Bool)
      → ((a : A) (d : ScifModule) → (put a d).placeholder ≡ d.placeholder)
      → Null (call_step k call put test)
  unfolding call_step
  Null-call call put test same (d, w) e = same (call d w).0 d ∙ e

  bound :
      (f : M (State k) (Unit {0})) (o : Exit (Unit {0}) × State k)
      → Null f
      → o.1.0.placeholder ≡ 0
      → NullNow (let (r, s) = o in elim r [ value a ↦ f s | returned c ↦ (returned c, s) ])
  bound f (value a, s) h e = h s e
  bound f (returned c, s) h e = e

  Null-then : (m f : M (State k) (Unit {0})) → Null m → Null f → Null (m >> f)
  Null-then m f h g s e = bound f (m s) g (h s e)

  abbrev AllNull : List (M (State k) (Unit {0})) → Type 0
  AllNull [] = Unit {0}
  AllNull (m ∷ ms) = Null m × AllNull ms

  Null-in_turn : (ms : List (M (State k) (Unit {0}))) → AllNull ms → Null (in_turn k ms)
  unfolding in_turn
  Null-in_turn [] h s e = e
  Null-in_turn (m ∷ ms) (h, hs) s e = Null-then m (in_turn k ms) h (Null-in_turn ms hs) s e

  connect-Null : (n p : ℕ) → AllNull (connect_steps k n p)
  unfolding name_step open_step bind_step listen_step accept_step
  connect-Null n p = (
    Null-call _ _ _ (λ a d. refl),
    (
      Null-call _ _ _ (λ a d. refl),
      (
        Null-call _ _ _ (λ a d. refl),
        (Null-call _ _ _ (λ a d. refl), (Null-call _ _ _ (λ a d. refl), tt)),
      ),
    ),
  )

  ptr-Null : Null (ptr_step k k.kmalloc)
  unfolding ptr_step
  ptr-Null = Null-call _ _ _ (λ a d. refl)

  return_ptr-Null : Null (return_ptr_step k k.kmalloc)
  unfolding return_ptr_step
  return_ptr-Null = Null-call _ _ _ (λ a d. refl)

  exchange-Null : Null (exchange_step k)
  unfolding exchange_step
  exchange-Null = Null-call _ _ _ (λ a d. refl)

  pub latency_steps_done-Null : Null (latency_steps_done k)
  unfolding latency_steps_done
  latency_steps_done-Null =
      Null-then (in_turn k (connect_steps k 1 23968))
        (ptr_step k k.kmalloc >> (return_ptr_step k k.kmalloc >> exchange_step k))
        (Null-in_turn (connect_steps k 1 23968) (connect-Null 1 23968))
        (Null-then (ptr_step k k.kmalloc) (return_ptr_step k k.kmalloc >> exchange_step k) ptr-Null
          (Null-then (return_ptr_step k k.kmalloc) (exchange_step k) return_ptr-Null exchange-Null))
