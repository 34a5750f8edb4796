-- ===== src/Client/Messages.antt =====
-- The offsets that the host sends and the card receives.
use mathlib.Core.Option.{some}
use xeon_phi_kernel_integrat.Base.{ℕ, List, [], ◌∷◌, ◌++◌, true, ◌≡◌}
use xeon_phi_kernel_integrat.Memory.{Memory}
use xeon_phi_kernel_integrat.Client.Library.{Scif}

-- The documented behaviour that the theorems rely on, on the side that sends: `scif_send` puts its
-- message behind those sent before, and no other call of the set-up sends anything.
pub record IsSending (lib : Scif) : Type 0 where
  pub sent : lib.World → List ℕ
  pub send_sent :
      (e a : ℕ) (w : lib.World)
      → (lib.scif_send e a w).0 ≡ true
      → sent (lib.scif_send e a w).1 ≡ sent w ++ (a ∷ [])
  pub open_sent : (w : lib.World) → sent (lib.scif_open w).1 ≡ sent w
  pub bind_sent : (e p : ℕ) (w : lib.World) → sent (lib.scif_bind e p w).1 ≡ sent w
  pub listen_sent : (e n : ℕ) (w : lib.World) → sent (lib.scif_listen e n w).1 ≡ sent w
  pub accept_sent : (e : ℕ) (w : lib.World) → sent (lib.scif_accept e w).1 ≡ sent w
  pub memalign_sent : (a n : ℕ) (w : lib.World) → sent (lib.posix_memalign a n w).1 ≡ sent w
  pub written_sent : (m : Memory) (w : lib.World) → sent (lib.write_local m w) ≡ sent w
  pub rand_sent : (w : lib.World) → sent (lib.rand w).1 ≡ sent w
  pub register_sent : (e a n o : ℕ) (w : lib.World) → sent (lib.scif_register e a n o w).1 ≡ sent w

-- The same on the side that receives: a `scif_recv` that succeeds gives the first message that has not
-- been received, and no other call of the set-up receives anything.
pub record IsReceiving (lib : Scif) : Type 0 where
  pub inbox : lib.World → List ℕ
  pub recv_inbox :
      (e x : ℕ) (xs : List ℕ) (a : ℕ) (w : lib.World)
      → inbox w ≡ x ∷ xs
      → (lib.scif_recv e w).0 ≡ some a
      → (a ≡ x) × (inbox (lib.scif_recv e w).1 ≡ xs)
  pub open_inbox : (w : lib.World) → inbox (lib.scif_open w).1 ≡ inbox w
  pub bind_inbox : (e p : ℕ) (w : lib.World) → inbox (lib.scif_bind e p w).1 ≡ inbox w
  pub connect_inbox : (e n p : ℕ) (w : lib.World) → inbox (lib.scif_connect e n p w).1 ≡ inbox w
  pub sleep_inbox : (n : ℕ) (w : lib.World) → inbox (lib.sleep n w) ≡ inbox w
  pub memalign_inbox : (a n : ℕ) (w : lib.World) → inbox (lib.posix_memalign a n w).1 ≡ inbox w
  pub written_inbox : (m : Memory) (w : lib.World) → inbox (lib.write_local m w) ≡ inbox w
  pub register_inbox :
      (e a n o : ℕ) (w : lib.World) → inbox (lib.scif_register e a n o w).1 ≡ inbox w
