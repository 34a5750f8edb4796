-- ===== src/Client/ReceiveLaws.antt =====
-- What the set-up of the card's programs receives.
use xeon_phi_kernel_integrat.Base.{ℕ, zero, suc, List, [], ◌∷◌, Bool, true, false, ◌≡◌, refl, ◌∙◌}
use xeon_phi_kernel_integrat.Client.Library.{Scif}
use xeon_phi_kernel_integrat.Client.Step.{
  ◌>>=◌, obtain, finish, retry, connect, open_connection, allocate, register, clear_buffer,
}
use xeon_phi_kernel_integrat.Client.Session.{Session, session}
use xeon_phi_kernel_integrat.Client.SetUp.{set_up, set_up_registered}
use xeon_phi_kernel_integrat.Client.Messages.{IsReceiving}
use xeon_phi_kernel_integrat.Client.Gives.{
  Triple, Keeps, Triple-bind, Keeps-bind, Keeps-then, Triple-check, Triple-obtain, Triple-effect,
}

module _ (lib : Scif) (from : IsReceiving lib) where
  abbrev pub Inbox : List ℕ → lib.World → Type 0
  Inbox l w = from.inbox w ≡ l

  retried :
      (port left e : ℕ) (ret : Bool) (w : lib.World)
      → from.inbox (retry lib port left e ret w).1 ≡ from.inbox w
  unfolding retry
  retried port zero e ret w = refl
  retried port (suc left) e true w = refl
  retried port (suc left) e false w =
      let (ret, w') = lib.scif_connect e 0 port (lib.sleep 1 w) in
      retried port left e ret w'
      ∙ from.connect_inbox e 0 port (lib.sleep 1 w)
      ∙ from.sleep_inbox 1 w

  connected : (port e : ℕ) (w : lib.World) → from.inbox (connect lib port e w).1 ≡ from.inbox w
  unfolding connect
  connected port e w =
      let (ret, w') = lib.scif_connect e 0 port w in
      retried port 10 e ret w' ∙ from.connect_inbox e 0 port w

  Keeps-open_connection : (l : List ℕ) (port : ℕ) → Keeps (Inbox l) (open_connection lib port)
  unfolding open_connection
  Keeps-open_connection l port =
      Keeps-bind (Inbox l) (λ _. Inbox l) _ _
        (Triple-obtain (Inbox l) (λ _. Inbox l) lib.scif_open (λ w h a e. from.open_inbox w ∙ h))
        λ e.
          Keeps-then (Inbox l) (λ _. Inbox l) _ _
            (Triple-check (Inbox l) (Inbox l) _ (λ w h ok. from.bind_inbox e 23955 w ∙ h))
            (Keeps-then (Inbox l) (λ _. Inbox l) _ (finish e)
              (Triple-check (Inbox l) (Inbox l) _ (λ w h ok. connected port e w ∙ h)) (λ w h. h))

  Keeps-allocate : (l : List ℕ) (n : ℕ) → Keeps (Inbox l) (allocate lib n)
  unfolding allocate
  Keeps-allocate l n =
      Triple-obtain (Inbox l) (λ _. Inbox l) _ (λ w h a e. from.memalign_inbox 4096 n w ∙ h)

  Keeps-clear_buffer : (l : List ℕ) (n a : ℕ) → Keeps (Inbox l) (clear_buffer lib n a)
  unfolding clear_buffer
  Keeps-clear_buffer l n a = Triple-effect (Inbox l) (Inbox l) _ (λ w h. from.written_inbox _ w ∙ h)

  Keeps-register : (l : List ℕ) (e a n : ℕ) → Keeps (Inbox l) (register lib e a n)
  unfolding register
  Keeps-register l e a n =
      Triple-check (Inbox l) (Inbox l) _ (λ w h ok. from.register_inbox e a n a w ∙ h)

  Triple-recv :
      (x : ℕ) (xs : List ℕ) (e : ℕ)
      → Triple (Inbox (x ∷ xs)) (obtain (lib.scif_recv e)) (λ a w. (a ≡ x) × Inbox xs w)
  Triple-recv x xs e =
      Triple-obtain (Inbox (x ∷ xs)) (λ a w. (a ≡ x) × Inbox xs w) _
        (λ w h a some. from.recv_inbox e x xs a w h some)

  -- the variables that hold the two offsets
  abbrev pub IsTold : ℕ → ℕ → Session → Type 0
  IsTold x y s = (s.remote_ptr ≡ x) × (s.return_ptr ≡ y)

  -- The two offsets are received one after the other, as each set-up ends.
  Triple-IsTold :
      (x y e p t o : ℕ)
      → Triple
          (Inbox (x ∷ y ∷ []))
          (obtain (lib.scif_recv e) >>= λ r.
            obtain (lib.scif_recv e) >>= λ b. finish (session e p t o r b))
          (λ s _. IsTold x y s)
  Triple-IsTold x y e p t o =
      Triple-bind (Inbox (x ∷ y ∷ [])) (λ a w. (a ≡ x) × Inbox (y ∷ []) w) (λ s _. IsTold x y s) _ _
        (Triple-recv x (y ∷ []) e)
        λ r w (same, rest).
          Triple-bind (Inbox (y ∷ [])) (λ a w'. (a ≡ y) × Inbox [] w') (λ s _. IsTold x y s) _
            (λ b. finish (session e p t o r b)) (Triple-recv y [] e) (λ b w' q. (same, q.0)) w rest

  pub Triple-set_up :
      (port n x y : ℕ) → Triple (Inbox (x ∷ y ∷ [])) (set_up lib port n) (λ s _. IsTold x y s)
  unfolding set_up
  Triple-set_up port n x y =
      let l = x ∷ y ∷ [] in
      Keeps-bind (Inbox l) (λ s _. IsTold x y s) _ _ (Keeps-open_connection l port)
        λ e.
          Keeps-bind (Inbox l) (λ s _. IsTold x y s) _ _ (Keeps-allocate l n)
            λ p.
              Keeps-then (Inbox l) (λ s _. IsTold x y s) _ _ (Keeps-clear_buffer l n p)
                (Keeps-then (Inbox l) (λ s _. IsTold x y s) _ _ (Keeps-register l e p n)
                  (Keeps-bind (Inbox l) (λ s _. IsTold x y s) _ _ (Keeps-allocate l n)
                    λ t.
                      Keeps-bind (Inbox l) (λ s _. IsTold x y s) _ _ (Keeps-allocate l n)
                        λ o.
                          Keeps-then (Inbox l) (λ s _. IsTold x y s) _ _ (Keeps-register l e o n)
                            (Triple-IsTold x y e p t o)))

  pub Triple-set_up_registered :
      (port n x y : ℕ)
      → Triple (Inbox (x ∷ y ∷ [])) (set_up_registered lib port n) (λ s _. IsTold x y s)
  unfolding set_up_registered
  Triple-set_up_registered port n x y =
      let l = x ∷ y ∷ [] in
      Keeps-bind (Inbox l) (λ s _. IsTold x y s) _ _ (Keeps-open_connection l port)
        λ e.
          Keeps-bind (Inbox l) (λ s _. IsTold x y s) _ _ (Keeps-allocate l n)
            λ p.
              Keeps-then (Inbox l) (λ s _. IsTold x y s) _ _ (Keeps-clear_buffer l n p)
                (Keeps-then (Inbox l) (λ s _. IsTold x y s) _ _ (Keeps-register l e p n)
                  (Keeps-bind (Inbox l) (λ s _. IsTold x y s) _ _ (Keeps-allocate l n)
                    λ t.
                      Keeps-then (Inbox l) (λ s _. IsTold x y s) _ _ (Keeps-register l e t n)
                        (Keeps-bind (Inbox l) (λ s _. IsTold x y s) _ _ (Keeps-allocate l n)
                          λ o.
                            Keeps-then (Inbox l) (λ s _. IsTold x y s) _ _ (Keeps-register l e o n)
                              (Triple-IsTold x y e p t o))))
