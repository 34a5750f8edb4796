-- ===== src/Pair/Openmp.antt =====
-- openmpmic/scif_host.c and openmpmic/scif_mic.c together.
use xeon_phi_kernel_integrat.Base.{ℕ, ◌+◌, ◌<◌, List, [], ◌∷◌, ◌≡◌, ◌⊎◌, sym}
use xeon_phi_kernel_integrat.Aes.Context.{CryptoTfm, aes_keysize_128}
use xeon_phi_kernel_integrat.Aes.KeySchedule.{crypto_aes_set_key}
use xeon_phi_kernel_integrat.Memory.Laws.{IsBytes}
use xeon_phi_kernel_integrat.Client.Library.{Scif, IsDocumented}
use xeon_phi_kernel_integrat.Client.Step.{value, returned}
use xeon_phi_kernel_integrat.Client.Session.{Session}
use xeon_phi_kernel_integrat.Client.SetUp.{set_up}
use xeon_phi_kernel_integrat.Client.Host.{Host, host}
use xeon_phi_kernel_integrat.Client.Rules.{Failure}
use xeon_phi_kernel_integrat.Client.Passes.{IsApart}
use xeon_phi_kernel_integrat.Client.Keyed.{IsKeyable}
use xeon_phi_kernel_integrat.Client.Back.{IsBack}
use xeon_phi_kernel_integrat.Client.Messages.{IsSending, IsReceiving}
use xeon_phi_kernel_integrat.Client.Gives.{Triple, Keeps-bind, Keeps-then}
use xeon_phi_kernel_integrat.Client.SendLaws.{
  Sent, Keeps-listen, Keeps-allocate, Keeps-clear_buffer, Keeps-random_buffer, Triple-shared,
}
use xeon_phi_kernel_integrat.Client.ReceiveLaws.{Triple-set_up}
use xeon_phi_kernel_integrat.Openmp.Card.{len, benchmark}
use xeon_phi_kernel_integrat.Openmp.Host.{host_set_up, host_end}
use xeon_phi_kernel_integrat.Openmp.Benchmark.{benchmark-IsBack}
use xeon_phi_kernel_integrat.Openmp.HostRun.{host_end-benchmark}
use xeon_phi_kernel_integrat.Pair.Offsets.{offsets, IsBack-IsReturned, through}

pub Triple-host_set_up :
    (lib : Scif) (out : IsSending lib)
    → Triple (Sent lib out []) (host_set_up lib) (λ k. Sent lib out (k.ptr ∷ k.return_ptr ∷ []))
unfolding host_set_up
Triple-host_set_up lib out = Keeps-bind Start Two _ _ (Keeps-listen lib out [] 23968) λ ends.
    Keeps-bind Start Two _ _ (Keeps-allocate lib out [] len) λ p.
      Keeps-bind Start Two _ _ (Keeps-allocate lib out [] len) λ r.
        Keeps-then Start Two _ _ (Keeps-clear_buffer lib out [] len r) (
          Keeps-then Start Two _ _ (Keeps-random_buffer lib out [] len p)
            (Triple-shared lib out (host ends.0 ends.1 p r) len))
  where
    Start : lib.World → Type 0
    Start = Sent lib out []

    Two : Host → lib.World → Type 0
    Two k = Sent lib out (k.ptr ∷ k.return_ptr ∷ [])

-- The host's program of openmpmic and the card's, from their set-up to the host's verdict. The host sets
-- itself up from a world in which it has sent nothing, and the card with the messages that the host
-- has sent; the card then sees the host's memory, its buffers do not overlap, the memories hold
-- bytes, and its loops go through; the host's memory at the end of its wait is what they have left in
-- it. With a key of 16 bytes and SCIF libraries that keep to their documentation, the host's second
-- buffer then holds the bytes that its first buffer held after the set-up, and still holds, and the
-- host's program finds the two equal and goes through to its end, unless it stops right after a failed
-- call of its library.
pub host_card_lem :
    (host_lib card_lib : Scif) (out : IsSending host_lib) (from : IsReceiving card_lib)
    (tfm : CryptoTfm) (in_key : List ℕ) (v0 v1 v2 : host_lib.World) (w0 w1 w2 : card_lib.World)
    (h : Host) (s : Session)
    → IsDocumented host_lib
    → IsDocumented card_lib
    → IsKeyable tfm aes_keysize_128
    → out.sent v0 ≡ []
    → host_set_up host_lib v0 ≡ (value h, v1)
    → from.inbox w0 ≡ out.sent v1
    → set_up card_lib 23968 len w0 ≡ (value s, w1)
    → card_lib.peer_memory w1 ≡ host_lib.local_memory v1
    → IsApart len s
    → IsBytes (card_lib.local_memory w1)
    → IsBytes (card_lib.peer_memory w1)
    → benchmark card_lib (crypto_aes_set_key tfm in_key aes_keysize_128).0 s w1 ≡ (value tt, w2)
    → host_lib.local_memory v2 ≡ card_lib.peer_memory w2
    → let (r, v3) = host_end host_lib h v2 in
      ((i : ℕ)
        → i < len
        → (host_lib.local_memory v2 (h.return_ptr + i) ≡ host_lib.local_memory v1 (h.ptr + i))
          × (host_lib.local_memory v2 (h.ptr + i) ≡ host_lib.local_memory v1 (h.ptr + i)))
      × ((r ≡ value tt) ⊎ ((r ≡ returned 1) × Failure host_lib v3))
host_card_lem host_lib card_lib out from tfm in_key v0 v1 v2 w0 w1 w2 h s host_doc card_doc k none e
      arrived e' seen apart local peer went left =
    let told =
      offsets host_lib card_lib out from v0 v1 v2 w0 w1 w2 h s (host_set_up host_lib)
        (set_up card_lib 23968 len) (Triple-host_set_up host_lib out)
        (Triple-set_up card_lib from 23968 len) none e arrived e' in
    let back =
      through card_lib (Failure card_lib) (IsBack card_lib len s w1)
        (benchmark card_lib (crypto_aes_set_key tfm in_key aes_keysize_128).0 s w1) w2 went
        (benchmark-IsBack card_lib card_doc tfm in_key aes_keysize_128 k s w1 apart local peer) in
    (
      IsBack-IsReturned host_lib card_lib out from v0 v1 v2 w0 w1 w2 h s len told seen back left,
      host_end-benchmark card_lib host_lib s w1 w2 h v2 host_doc back (sym told.0) (sym told.1)
          left,
    )
