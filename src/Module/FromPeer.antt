-- ===== src/Module/FromPeer.antt =====
-- The pointer that `scif_start` of module/dma.c receives.
use xeon_phi_kernel_integrat.Base.{
  ℕ, Bool, true, false, ◌==◌, [], ◌∷◌, ◌≡◌, refl, ap, arith, ◌*◌, if◌then◌else◌,
}
use xeon_phi_kernel_integrat.Client.Step.{Exit, value, returned, M, ◌>>◌}
use xeon_phi_kernel_integrat.Module.Start.{
  Kernel, State, call_step, in_turn, connect_steps, ptr_step, random_step, return_ptr_step,
  recv_step,
}
use xeon_phi_kernel_integrat.Module.Kmalloc.{
  pages_steps, pages_steps_done, ptr_register_step, return_register_step, ptr_send_step,
  return_send_step,
}

module _ (k : Kernel) where
  -- The last call was a `scif_recv` of eight bytes, and `placeholder` is what it received.
  abbrev pub FromPeer : State k → Type 0
  FromPeer s = (v : k.World) × (k.scif_recv s.0.remote_endpoint v ≡ ((8, s.0.placeholder), s.1))

  -- where the steps have come to their end
  abbrev pub Received : Exit (Unit {0}) × State k → Type 0
  Received (value a, s) = FromPeer s
  Received (returned c, s) = Unit {0}

  abbrev Receives : M (State k) (Unit {0}) → Type 0
  Receives m = (s : State k) → Received (m s)

  bound :
      (f : M (State k) (Unit {0})) (o : Exit (Unit {0}) × State k)
      → Receives f
      → Received (let (r, s) = o in elim r [ value a ↦ f s | returned c ↦ (returned c, s) ])
  bound f (value a, s) h = h s
  bound f (returned c, s) h = tt

  then_received : (m f : M (State k) (Unit {0})) → Receives f → Receives (m >> f)
  then_received m f h s = bound f (m s) h

  tested :
      (n : ℕ) (b : Bool) (s : State k)
      → (n == 8) ≡ b
      → (n ≡ 8 → FromPeer s)
      → Received (if b then value tt else returned 0, s)
  tested n true s e h = h (ground (arith, e))
  tested n false s e h = tt

  recv_received : Receives (recv_step k)
  unfolding recv_step call_step
  recv_received (d, w) =
      let (a, w') = k.scif_recv d.remote_endpoint w in
      tested a.0 (a.0 == 8) (record d { placeholder = a.1 }, w') refl
        λ e. (w, ap (λ n. ((n, a.1), w')) e)

  finished :
      (o : Exit (Unit {0}) × State k)
      → Received o
      → Received
          (let (r, s) = o in elim r [ value a ↦ in_turn k [] s | returned c ↦ (returned c, s) ])
  unfolding in_turn
  finished (value a, s) h = h
  finished (returned c, s) h = h

  recv_last : Receives (in_turn k (recv_step k ∷ []))
  unfolding in_turn
  recv_last s = finished (recv_step k s) (recv_received s)

  pages_received : Receives (in_turn k (pages_steps k))
  unfolding in_turn
  pages_received = then_received (ptr_register_step k) _ (
      then_received (return_register_step k) _ (
        then_received (ptr_send_step k) _
          (then_received (return_send_step k) (in_turn k (recv_step k ∷ [])) recv_last)))

  pub pages_steps_done-Received : Receives (pages_steps_done k)
  unfolding pages_steps_done
  pages_steps_done-Received = then_received (in_turn k (connect_steps k (32 * 4096) 23969)) _ (
      then_received (ptr_step k k.kmalloc) _ (
        then_received (random_step k) _
          (then_received (return_ptr_step k k.kmalloc) _ pages_received)))
