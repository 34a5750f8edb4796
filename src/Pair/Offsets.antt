-- ===== src/Pair/Offsets.antt =====
-- What the two sides of a benchmark know of each other, and what passes between them.
use mathlib.Core.Path.{subst}
use xeon_phi_kernel_integrat.Base.{ℕ, ◌+◌, ◌<◌, [], ◌∷◌, ◌≡◌, ◌∙◌}
use xeon_phi_kernel_integrat.Client.Library.{Scif}
use xeon_phi_kernel_integrat.Client.Step.{Exit, value, M}
use xeon_phi_kernel_integrat.Client.Session.{Session}
use xeon_phi_kernel_integrat.Client.Host.{Host}
use xeon_phi_kernel_integrat.Client.Rules.{Post}
use xeon_phi_kernel_integrat.Client.Back.{IsBack}
use xeon_phi_kernel_integrat.Client.Messages.{IsSending, IsReceiving}
use xeon_phi_kernel_integrat.Client.Gives.{Triple, gives_elim}
use xeon_phi_kernel_integrat.Client.SendLaws.{Sent}
use xeon_phi_kernel_integrat.Client.ReceiveLaws.{Inbox, IsTold}

-- The worlds of the host before and after its set-up and at the end of its wait, and those of the card
-- before its set-up, and before and after its loops.
module _ (host_lib card_lib : Scif) (out : IsSending host_lib) (from : IsReceiving card_lib)
    (v0 v1 v2 : host_lib.World) (w0 w1 w2 : card_lib.World) (h : Host) (s : Session) where
  -- The card has the host's two addresses, each in its place.
  pub offsets :
      (host_start : M host_lib.World Host) (card_start : M card_lib.World Session)
      → Triple
          (Sent host_lib out [])
          host_start
          (λ k. Sent host_lib out (k.ptr ∷ k.return_ptr ∷ []))
      → ((x y : ℕ)
          → Triple
              (Inbox card_lib from (x ∷ y ∷ []))
              card_start
              (λ t _. IsTold card_lib from x y t))
      → out.sent v0 ≡ []
      → host_start v0 ≡ (value h, v1)
      → from.inbox w0 ≡ out.sent v1
      → card_start w0 ≡ (value s, w1)
      → (s.remote_ptr ≡ h.ptr) × (s.return_ptr ≡ h.return_ptr)
  offsets host_start card_start sends tells none e arrived e' =
      let two : out.sent v1 ≡ h.ptr ∷ h.return_ptr ∷ [] =
        gives_elim (λ k. Sent host_lib out (k.ptr ∷ k.return_ptr ∷ [])) (host_start v0) h v1 e
          (sends v0 none) in
      gives_elim (λ t _. IsTold card_lib from h.ptr h.return_ptr t) (card_start w0) s w1 e'
        (tells h.ptr h.return_ptr w0 (arrived ∙ two))

  -- The host's second buffer holds at the end what its first buffer held at the start, and still holds.
  abbrev pub IsReturned : ℕ → Type 0
  IsReturned n =
      (i : ℕ)
      → i < n
      → (host_lib.local_memory v2 (h.return_ptr + i) ≡ host_lib.local_memory v1 (h.ptr + i))
        × (host_lib.local_memory v2 (h.ptr + i) ≡ host_lib.local_memory v1 (h.ptr + i))

  pub IsBack-IsReturned :
      (n : ℕ)
      → (s.remote_ptr ≡ h.ptr) × (s.return_ptr ≡ h.return_ptr)
      → card_lib.peer_memory w1 ≡ host_lib.local_memory v1
      → IsBack card_lib n s w1 w2
      → host_lib.local_memory v2 ≡ card_lib.peer_memory w2
      → IsReturned n
  IsBack-IsReturned n (e, e') seen back left i p =
      let (second, first) = back i p in
      (rw (left, ← e, ← e', ← seen) second, rw (left, ← e, ← seen) first)

-- loops that have gone through have made their condition hold
pub through :
    (lib : Scif) (F Q : lib.World → Type 0) (o : Exit (Unit {0}) × lib.World) (w : lib.World)
    → o ≡ (value tt, w)
    → Post lib F Q o
    → Q w
through lib F Q o w e p = subst (Post lib F Q) e p
