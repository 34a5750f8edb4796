-- ===== src/Client/SendLaws.antt =====
-- What the set-up of the host's programs sends.
use xeon_phi_kernel_integrat.Base.{ℕ, zero, suc, ◌+◌, ◌%◌, List, [], ◌∷◌, ◌++◌, ◌≡◌, refl, ap, ◌∙◌}
use xeon_phi_kernel_integrat.Client.Library.{Scif}
use xeon_phi_kernel_integrat.Client.Step.{
  ◌>>◌, check, effect, finish, allocate, register, clear_buffer,
}
use xeon_phi_kernel_integrat.Client.Host.{
  Host, random_from, random_buffer, accept, listen, share, store8,
}
use xeon_phi_kernel_integrat.Client.Messages.{IsSending}
use xeon_phi_kernel_integrat.Client.Gives.{
  Triple, Keeps, Triple-then, Keeps-bind, Keeps-then, Triple-check, Triple-obtain, Triple-effect,
}

module _ (lib : Scif) (out : IsSending lib) where
  abbrev pub Sent : List ℕ → lib.World → Type 0
  Sent l w = out.sent w ≡ l

  pub Keeps-allocate : (l : List ℕ) (n : ℕ) → Keeps (Sent l) (allocate lib n)
  unfolding allocate
  Keeps-allocate l n =
      Triple-obtain (Sent l) (λ _. Sent l) _ (λ w h a e. out.memalign_sent 4096 n w ∙ h)

  pub Keeps-clear_buffer : (l : List ℕ) (n a : ℕ) → Keeps (Sent l) (clear_buffer lib n a)
  unfolding clear_buffer
  Keeps-clear_buffer l n a = Triple-effect (Sent l) (Sent l) _ (λ w h. out.written_sent _ w ∙ h)

  randoms_sent :
      (byte_of : ℕ → ℕ) (left i buffer : ℕ) (w : lib.World)
      → out.sent (random_from lib byte_of left i buffer w) ≡ out.sent w
  unfolding random_from
  randoms_sent byte_of zero i buffer w = refl
  randoms_sent byte_of (suc left) i buffer w =
      let (r, w') = lib.rand w in
      let m = store8 (buffer + i) (byte_of r) (lib.local_memory w') in
      randoms_sent byte_of left (i + 1) buffer (lib.write_local m w')
      ∙ out.written_sent m w'
      ∙ out.rand_sent w

  pub Keeps-random_buffer : (l : List ℕ) (n a : ℕ) → Keeps (Sent l) (effect (random_buffer lib n a))
  unfolding random_buffer
  Keeps-random_buffer l n a =
      Triple-effect (Sent l) (Sent l) _ (λ w h. randoms_sent (λ r. r % 10) n 0 a w ∙ h)

  Keeps-accept : (l : List ℕ) (e : ℕ) → Keeps (Sent l) (accept lib e)
  unfolding accept
  Keeps-accept l e w h = out.accept_sent e w ∙ h

  pub Keeps-listen : (l : List ℕ) (port : ℕ) → Keeps (Sent l) (listen lib port)
  unfolding listen
  Keeps-listen l port =
      Keeps-bind {B = ℕ × ℕ} (Sent l) (λ _. Sent l) _ _
        (Triple-obtain (Sent l) (λ _. Sent l) lib.scif_open (λ w h a e. out.open_sent w ∙ h))
        λ e.
          Keeps-then {B = ℕ × ℕ} (Sent l) (λ _. Sent l) _ _
            (Triple-check (Sent l) (Sent l) _ (λ w h ok. out.bind_sent e port w ∙ h))
            (Keeps-then {B = ℕ × ℕ} (Sent l) (λ _. Sent l) _ _
              (Triple-check (Sent l) (Sent l) _ (λ w h ok. out.listen_sent e 4 w ∙ h))
              (Keeps-bind {B = ℕ × ℕ} (Sent l) (λ _. Sent l) _ (λ n. finish (e, n))
                (Keeps-accept l e) (λ n w h. h)))

  Keeps-register : (l : List ℕ) (e a n : ℕ) → Keeps (Sent l) (register lib e a n)
  unfolding register
  Keeps-register l e a n =
      Triple-check (Sent l) (Sent l) _ (λ w h ok. out.register_sent e a n a w ∙ h)

  Triple-send :
      (l : List ℕ) (e a : ℕ)
      → Triple (Sent l) (check (lib.scif_send e a)) (λ _. Sent (l ++ (a ∷ [])))
  Triple-send l e a =
      Triple-check (Sent l) (Sent (l ++ (a ∷ []))) _
        (λ w h ok. out.send_sent e a w ok ∙ ap (λ k. k ++ (a ∷ [])) h)

  -- The two offsets are sent one after the other.
  pub Triple-share :
      (h : Host) (n : ℕ) → Triple (Sent []) (share lib h n) (λ _. Sent (h.ptr ∷ h.return_ptr ∷ []))
  unfolding share
  Triple-share h n =
      Keeps-then (Sent []) (λ _. Sent (h.ptr ∷ h.return_ptr ∷ [])) _ _
        (Keeps-register [] h.new_endpoint h.ptr n)
        (Keeps-then (Sent []) (λ _. Sent (h.ptr ∷ h.return_ptr ∷ [])) _ _
          (Keeps-register [] h.new_endpoint h.return_ptr n)
          (Triple-then (Sent []) (Sent (h.ptr ∷ [])) (λ _. Sent (h.ptr ∷ h.return_ptr ∷ [])) _ _
            (Triple-send [] h.new_endpoint h.ptr)
            (Triple-send (h.ptr ∷ []) h.new_endpoint h.return_ptr)))

  -- how each set-up ends
  pub Triple-shared :
      (h : Host) (n : ℕ)
      → Triple (Sent []) (share lib h n >> finish h) (λ k. Sent (k.ptr ∷ k.return_ptr ∷ []))
  Triple-shared h n =
      Triple-then (Sent []) (Sent (h.ptr ∷ h.return_ptr ∷ []))
        (λ k. Sent (k.ptr ∷ k.return_ptr ∷ [])) _ (finish h) (Triple-share h n) (λ w q. q)
