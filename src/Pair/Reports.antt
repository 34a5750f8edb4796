-- ===== src/Pair/Reports.antt =====
-- aes_bench/scif_host.c and aes_bench/scif_mic.c together, and scaling/scif_host.c and scaling/scif_mic.c.
use xeon_phi_kernel_integrat.Base.{
  ℕ, ◌+◌, ◌<◌, List, [], ◌∷◌, true, arith, ◌≡◌, ◌⊎◌, refl, sym, ◌∙◌,
}
use xeon_phi_kernel_integrat.Aes.Context.{CryptoTfm, aes_keysize_128, aes_keysize_256}
use xeon_phi_kernel_integrat.Aes.KeySchedule.{crypto_aes_set_key}
use xeon_phi_kernel_integrat.Memory.Laws.{IsBytes}
use xeon_phi_kernel_integrat.Client.Library.{Scif, IsDocumented}
use xeon_phi_kernel_integrat.Client.Step.{M, value, returned, ◌>>◌, check}
use xeon_phi_kernel_integrat.Client.Session.{Session}
use xeon_phi_kernel_integrat.Client.SetUp.{set_up, set_up_registered}
use xeon_phi_kernel_integrat.Client.Host.{Host, host}
use xeon_phi_kernel_integrat.Client.Rules.{Failure, recv_at_failed, Post}
use xeon_phi_kernel_integrat.Client.Passes.{IsApart}
use xeon_phi_kernel_integrat.Client.Keyed.{IsKeyable, setting}
use xeon_phi_kernel_integrat.Client.Back.{IsBack}
use xeon_phi_kernel_integrat.Client.Messages.{IsSending, IsReceiving}
use xeon_phi_kernel_integrat.Client.Gives.{Triple, Keeps-bind, Keeps-then}
use xeon_phi_kernel_integrat.Client.SendLaws.{
  Sent, Keeps-listen, Keeps-allocate, Keeps-random_buffer, Triple-shared,
}
use xeon_phi_kernel_integrat.Client.ReceiveLaws.{
  Inbox, IsTold, Triple-set_up, Triple-set_up_registered,
}
use xeon_phi_kernel_integrat.Openmp.Card.{len}
use xeon_phi_kernel_integrat.AesBench.Card.{single_benchmark}
use xeon_phi_kernel_integrat.AesBench.Run.{single_benchmark-IsBack}
use xeon_phi_kernel_integrat.Scaling.Card.{half_len, scaling_benchmark}
use xeon_phi_kernel_integrat.Scaling.Run.{scaling_benchmark-IsBack}
use xeon_phi_kernel_integrat.Hosts.Exchange.{report_set_up, report_end}
use xeon_phi_kernel_integrat.Pair.Wait.{IsAway, received_end, after_wait}
use xeon_phi_kernel_integrat.Pair.Offsets.{offsets, IsReturned, IsBack-IsReturned, through}

pub Triple-report_set_up :
    (lib : Scif) (out : IsSending lib) (port n : ℕ)
    → Triple
        (Sent lib out [])
        (report_set_up lib port n)
        (λ k. Sent lib out (k.ptr ∷ k.return_ptr ∷ []))
unfolding report_set_up
Triple-report_set_up lib out port n =
    Keeps-bind Start Two _ _ (Keeps-listen lib out [] port) λ ends.
      Keeps-bind Start Two _ _ (Keeps-allocate lib out [] n) λ p.
        Keeps-bind Start Two _ _ (Keeps-allocate lib out [] n) λ r.
          Keeps-then Start Two _ _ (Keeps-random_buffer lib out [] n p)
            (Triple-shared lib out (host ends.0 ends.1 p r) n)
  where
    Start : lib.World → Type 0
    Start = Sent lib out []

    Two : Host → lib.World → Type 0
    Two k = Sent lib out (k.ptr ∷ k.return_ptr ∷ [])

-- The two sides, from their set-up to the line that the host prints: what holds of the loops is a
-- parameter.
module _ (host_lib card_lib : Scif) (out : IsSending host_lib) (from : IsReceiving card_lib)
    (v0 v1 v2 : host_lib.World) (w0 w1 w2 : card_lib.World) (h : Host) (s : Session)
    (placeholder : ℕ) (host_doc : IsDocumented host_lib) (none : out.sent v0 ≡ [])
    (arrived : from.inbox w0 ≡ out.sent v1)
    (seen : card_lib.peer_memory w1 ≡ host_lib.local_memory v1)
    (left : host_lib.local_memory v2 ≡ card_lib.peer_memory w2) where
  -- The host's bytes are back, and it says so, unless it stops right after a failed call.
  abbrev pub IsReported : ℕ → Type 0
  IsReported n =
      ((i : ℕ)
        → i < n
        → let m' =
            host_lib.local_memory (host_lib.scif_recv_at h.new_endpoint placeholder 8 v2).1 in
          (m' (h.return_ptr + i) ≡ host_lib.local_memory v1 (h.ptr + i))
          × (m' (h.ptr + i) ≡ host_lib.local_memory v1 (h.ptr + i)))
      × (let (r, v4) = received_end host_lib placeholder h n v2 in
          (r ≡ value true) ⊎ ((r ≡ returned 1) × Failure host_lib v4))

  unharmed :
      (n : ℕ)
      → IsAway placeholder h n
      → IsReturned host_lib card_lib out from v0 v1 v2 w0 w1 w2 h s n
      → IsReported n
  unfolding check
  unharmed n (away, away') back =
      let kept : (i : ℕ)
          → i < n
          → let m' =
              host_lib.local_memory (host_lib.scif_recv_at h.new_endpoint placeholder 8 v2).1 in
            (m' (h.return_ptr + i) ≡ host_lib.local_memory v1 (h.ptr + i))
            × (m' (h.ptr + i) ≡ host_lib.local_memory v1 (h.ptr + i)) =
        λ i lt. (
          host_doc.recv_at_local h.new_endpoint placeholder 8 v2 (h.return_ptr + i) (omega arith)
              ∙ (back i lt).0,
          host_doc.recv_at_local h.new_endpoint placeholder 8 v2 (h.ptr + i) (omega arith)
              ∙ (back i lt).1,
        ) in
      (
        kept,
        after_wait host_lib h n (host_lib.scif_recv_at h.new_endpoint placeholder 8 v2) host_doc
            (recv_at_failed h.new_endpoint placeholder 8 v2)
            (λ i lt. (kept i lt).1 ∙ sym (kept i lt).0),
      )

  reports :
      (port n : ℕ) (card_start : M card_lib.World Session) (o : M card_lib.World (Unit {0}))
      → ((x y : ℕ)
          → Triple
              (Inbox card_lib from (x ∷ y ∷ []))
              card_start
              (λ t _. IsTold card_lib from x y t))
      → IsAway placeholder h n
      → report_set_up host_lib port n v0 ≡ (value h, v1)
      → card_start w0 ≡ (value s, w1)
      → o w1 ≡ (value tt, w2)
      → Post card_lib (Failure card_lib) (IsBack card_lib n s w1) (o w1)
      → IsReported n
  reports port n card_start o tells away e e' went post =
      let told =
        offsets host_lib card_lib out from v0 v1 v2 w0 w1 w2 h s (report_set_up host_lib port n)
          card_start (Triple-report_set_up host_lib out port n) tells none e arrived e' in
      let back = through card_lib (Failure card_lib) (IsBack card_lib n s w1) (o w1) w2 went post in
      unharmed n away
        (IsBack-IsReturned host_lib card_lib out from v0 v1 v2 w0 w1 w2 h s n told seen back left)

-- The host's program of aes_bench and the card's, from their
-- set-up to the line that the host prints. The host sets itself up from a world in which it has sent
-- nothing, and the card with the messages that the host has sent; the card then sees the host's
-- memory, its buffers do not overlap, the memories hold bytes, and its loops go through; when the
-- card's message ends the host's wait, the host's memory is what they have left in it. With a key of
-- 16 bytes, SCIF libraries that keep to their documentation, and a `placeholder`, which the source
-- never sets, that happens to point to eight bytes outside the host's two buffers, the second buffer
-- holds after the wait the bytes that the first held after the set-up, the first still holds them, and
-- the host prints that the two are the same, unless it stops right after a failed call of its library.
pub single_pair_lem :
    (host_lib card_lib : Scif) (out : IsSending host_lib) (from : IsReceiving card_lib)
    (tfm : CryptoTfm) (in_key : List ℕ) (v0 v1 v2 : host_lib.World) (w0 w1 w2 : card_lib.World)
    (h : Host) (s : Session) (placeholder : ℕ)
    → IsDocumented host_lib
    → IsDocumented card_lib
    → IsKeyable tfm aes_keysize_128
    → out.sent v0 ≡ []
    → report_set_up host_lib 23954 len v0 ≡ (value h, v1)
    → from.inbox w0 ≡ out.sent v1
    → set_up card_lib 23954 len w0 ≡ (value s, w1)
    → card_lib.peer_memory w1 ≡ host_lib.local_memory v1
    → IsApart len s
    → IsBytes (card_lib.local_memory w1)
    → IsBytes (card_lib.peer_memory w1)
    → single_benchmark card_lib (crypto_aes_set_key tfm in_key aes_keysize_128).0 s w1
      ≡ (value tt, w2)
    → host_lib.local_memory v2 ≡ card_lib.peer_memory w2
    → IsAway placeholder h len
    → let m' = host_lib.local_memory (host_lib.scif_recv_at h.new_endpoint placeholder 8 v2).1 in
      let (r, v4) =
        (check (host_lib.scif_recv_at h.new_endpoint placeholder 8) >> report_end host_lib h len)
          v2 in
      ((i : ℕ)
        → i < len
        → (m' (h.return_ptr + i) ≡ host_lib.local_memory v1 (h.ptr + i))
          × (m' (h.ptr + i) ≡ host_lib.local_memory v1 (h.ptr + i)))
      × ((r ≡ value true) ⊎ ((r ≡ returned 1) × Failure host_lib v4))
single_pair_lem host_lib card_lib out from tfm in_key v0 v1 v2 w0 w1 w2 h s placeholder host_doc
      card_doc k none e arrived e' seen apart local peer went left away =
    let keyed = (crypto_aes_set_key tfm in_key aes_keysize_128).0 in
    reports host_lib card_lib out from v0 v1 v2 w0 w1 w2 h s placeholder host_doc none arrived seen
      left 23954 len (set_up card_lib 23954 len) (single_benchmark card_lib keyed s)
      (Triple-set_up card_lib from 23954 len) away e e' went
      (single_benchmark-IsBack card_lib card_doc keyed s w1
        (setting len tfm in_key aes_keysize_128 s (card_lib.peer_memory w1) k peer apart refl)
        local)

-- The host's program of scaling and the card's, from their
-- set-up to the line that the host prints. The host sets itself up from a world in which it has sent
-- nothing, and the card with the messages that the host has sent; the card then sees the host's
-- memory, its buffers do not overlap, the memories hold bytes, and its loops go through; when the
-- card's message ends the host's wait, the host's memory is what they have left in it. With a key of
-- 32 bytes, SCIF libraries that keep to their documentation, and a `placeholder`, which the source
-- never sets, that happens to point to eight bytes outside the host's two buffers, the second buffer
-- holds after the wait the bytes that the first held after the set-up, the first still holds them, and
-- the host prints that the two are the same, unless it stops right after a failed call of its library.
pub scaling_pair_lem :
    (host_lib card_lib : Scif) (out : IsSending host_lib) (from : IsReceiving card_lib)
    (tfm : CryptoTfm) (in_key : List ℕ) (v0 v1 v2 : host_lib.World) (w0 w1 w2 : card_lib.World)
    (h : Host) (s : Session) (placeholder : ℕ)
    → IsDocumented host_lib
    → IsDocumented card_lib
    → IsKeyable tfm aes_keysize_256
    → out.sent v0 ≡ []
    → report_set_up host_lib 23968 half_len v0 ≡ (value h, v1)
    → from.inbox w0 ≡ out.sent v1
    → set_up_registered card_lib 23968 half_len w0 ≡ (value s, w1)
    → card_lib.peer_memory w1 ≡ host_lib.local_memory v1
    → IsApart half_len s
    → IsBytes (card_lib.local_memory w1)
    → IsBytes (card_lib.peer_memory w1)
    → scaling_benchmark card_lib (crypto_aes_set_key tfm in_key aes_keysize_256).0 s w1
      ≡ (value tt, w2)
    → host_lib.local_memory v2 ≡ card_lib.peer_memory w2
    → IsAway placeholder h half_len
    → let m' = host_lib.local_memory (host_lib.scif_recv_at h.new_endpoint placeholder 8 v2).1 in
      let (r, v4) =
        (check (host_lib.scif_recv_at h.new_endpoint placeholder 8)
            >> report_end host_lib h half_len)
          v2 in
      ((i : ℕ)
        → i < half_len
        → (m' (h.return_ptr + i) ≡ host_lib.local_memory v1 (h.ptr + i))
          × (m' (h.ptr + i) ≡ host_lib.local_memory v1 (h.ptr + i)))
      × ((r ≡ value true) ⊎ ((r ≡ returned 1) × Failure host_lib v4))
scaling_pair_lem host_lib card_lib out from tfm in_key v0 v1 v2 w0 w1 w2 h s placeholder host_doc
      card_doc k none e arrived e' seen apart local peer went left away =
    let keyed = (crypto_aes_set_key tfm in_key aes_keysize_256).0 in
    reports host_lib card_lib out from v0 v1 v2 w0 w1 w2 h s placeholder host_doc none arrived seen
      left 23968 half_len (set_up_registered card_lib 23968 half_len)
      (scaling_benchmark card_lib keyed s) (Triple-set_up_registered card_lib from 23968 half_len)
      away e e' went
      (scaling_benchmark-IsBack card_lib card_doc keyed s w1
        (setting half_len tfm in_key aes_keysize_256 s (card_lib.peer_memory w1) k peer apart refl)
        local)
