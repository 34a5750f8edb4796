-- ===== src/Module/Owned.antt =====
-- How `scif_start` takes its buffers, step by step.
use xeon_phi_kernel_integrat.Base.{
  ℕ, Bool, true, false, List, [], ◌∷◌, if◌then◌else◌, ◌≡◌, inl, inr, refl,
}
use xeon_phi_kernel_integrat.Client.Step.{Exit, value, returned, M, ◌>>◌}
use xeon_phi_kernel_integrat.Module.Start.{
  Kernel, ScifModule, State, call_step, in_turn, name_step, open_step, bind_step, listen_step,
  accept_step, random_step, register0_step, send0_step, register1_step, send1_step, recv_step,
  connect_steps, serve_steps,
}
use xeon_phi_kernel_integrat.Module.Heap.{IsHeap, HoldsNone, HoldsOne, HoldsTwo, Holds}

module _ (k : Kernel) (alloc : ℕ → k.World → ℕ × k.World) (free : ℕ → k.World → k.World)
    (heap : IsHeap k alloc free) (before : ℕ → Bool) where
  abbrev pub Pred : Type 1
  Pred = ℕ → ℕ → (ℕ → Bool) → Type 0

  abbrev pub On : Pred → State k → Type 0
  On P (d, w) = P d.ptr d.return_ptr (heap.owns w)

  -- A part that goes on has made `Q` hold; one that goes to `exit` holds what `scif_end` gives back.
  abbrev pub Good : Pred → Exit (Unit {0}) × State k → Type 0
  Good Q (value a, s) = On Q s
  Good Q (returned c, s) = On (Holds before) s

  after :
      (Q R : Pred) (f : M (State k) (Unit {0})) (o : Exit (Unit {0}) × State k)
      → Good Q o
      → ((s : State k) → On Q s → Good R (f s))
      → Good R (let (r, s) = o in elim r [ value a ↦ f s | returned c ↦ (returned c, s) ])
  after Q R f (value a, s) q h = h s q
  after Q R f (returned c, s) q h = q

  pub then_rule :
      (Q R : Pred) (m f : M (State k) (Unit {0})) (s : State k)
      → Good Q (m s)
      → ((s' : State k) → On Q s' → Good R (f s'))
      → Good R ((m >> f) s)
  then_rule Q R m f s q h = after Q R f (m s) q h

  -- Each step keeps a condition.
  abbrev pub AllKeep : Pred → List (M (State k) (Unit {0})) → Type 0
  AllKeep P [] = Unit {0}
  AllKeep P (m ∷ ms) = ((s : State k) → On P s → Good P (m s)) × AllKeep P ms

  pub in_turn_rule :
      (P : Pred) (ms : List (M (State k) (Unit {0})))
      → AllKeep P ms
      → (s : State k) → On P s
      → Good P (in_turn k ms s)
  unfolding in_turn
  in_turn_rule P [] h s p = p
  in_turn_rule P (m ∷ ms) (h, hs) s p =
      then_rule P P m (in_turn k ms) s (h s p) (in_turn_rule P ms hs)

  -- `if (…) goto exit;`
  pub tested :
      (P Q : Pred) (ok : Bool) (s : State k)
      → (ok ≡ true → On P s → On Q s)
      → (ok ≡ false → On P s → On (Holds before) s)
      → On P s
      → Good Q (if ok then value tt else returned 0, s)
  tested P Q true s h g p = h refl p
  tested P Q false s h g p = g refl p

  -- A call that neither takes nor gives a buffer, and leaves the two pointers alone.
  pub keep_rule :
      {A : Type 0} (P : Pred) (call : ScifModule → k.World → A × k.World)
      (put : A → ScifModule → ScifModule) (test : A → ScifModule → Bool)
      → ((d : ScifModule) (w : k.World) → heap.owns (call d w).1 ≡ heap.owns w)
      → ((a : A) (d : ScifModule) → (put a d).ptr ≡ d.ptr)
      → ((a : A) (d : ScifModule) → (put a d).return_ptr ≡ d.return_ptr)
      → ((s : State k) → On P s → On (Holds before) s)
      → (s : State k) → On P s
      → Good P (call_step k call put test s)
  unfolding call_step
  keep_rule P call put test e same same' weaker (d, w) p =
      let a = (call d w).0 in
      let s' : State k = (put a d, (call d w).1) in
      tested P P (test a (put a d)) s' (λ _ q. q) (λ _ q. weaker s' q)
        (rw (e d w, same a d, same' a d) p)

  pub connect_keeps : (n p : ℕ) → AllKeep (HoldsNone before) (connect_steps k n p)
  unfolding name_step open_step bind_step listen_step accept_step
  connect_keeps n p = (
    keep_rule (HoldsNone before) _ _ _ (λ d w. refl) (λ a d. refl) (λ a d. refl) (λ s. inl),
    (
      keep_rule (HoldsNone before) _ _ _ (λ d. heap.open_kept) (λ a d. refl) (λ a d. refl)
          (λ s. inl),
      (
        keep_rule (HoldsNone before) _ _ _ (λ d. heap.bind_kept d.endpoint d.port) (λ a d. refl)
            (λ a d. refl) (λ s. inl),
        (
          keep_rule (HoldsNone before) _ _ _ (λ d. heap.listen_kept d.endpoint 4) (λ a d. refl)
              (λ a d. refl) (λ s. inl),
          (
            keep_rule (HoldsNone before) _ _ _ (λ d. heap.accept_kept d.endpoint) (λ a d. refl)
                (λ a d. refl) (λ s. inl),
            tt,
          ),
        ),
      ),
    ),
  )

  pub serve_keeps : (offset : ScifModule → ℕ) → AllKeep (HoldsTwo before) (serve_steps k offset)
  unfolding register0_step send0_step register1_step send1_step recv_step
  serve_keeps offset = (
    keep_rule (HoldsTwo before) _ _ _
        (λ d. heap.register_kept d.remote_endpoint d.ptr d.len (offset d)) (λ a d. refl)
        (λ a d. refl) (λ s h. inr (inr h)),
    (
      keep_rule (HoldsTwo before) _ _ _ (λ d. heap.send_kept d.remote_endpoint d.send_offset0)
          (λ a d. refl) (λ a d. refl) (λ s h. inr (inr h)),
      (
        keep_rule (HoldsTwo before) _ _ _
            (λ d. heap.register_kept d.remote_endpoint d.return_ptr d.len d.return_ptr)
            (λ a d. refl) (λ a d. refl) (λ s h. inr (inr h)),
        (
          keep_rule (HoldsTwo before) _ _ _ (λ d. heap.send_kept d.remote_endpoint d.send_offset1)
              (λ a d. refl) (λ a d. refl) (λ s h. inr (inr h)),
          (
            keep_rule (HoldsTwo before) _ _ _ (λ d. heap.recv_kept d.remote_endpoint) (λ a d. refl)
                (λ a d. refl) (λ s h. inr (inr h)),
            tt,
          ),
        ),
      ),
    ),
  )

  pub random_keeps :
      (s : State k) → On (HoldsOne before) s → Good (HoldsOne before) (random_step k s)
  unfolding random_step
  random_keeps =
      keep_rule (HoldsOne before) _ _ _ (λ d. heap.random_kept d.ptr d.len) (λ a d. refl)
        (λ a d. refl) (λ s h. inr (inl h))
