-- ===== src/Scaling/Run.antt =====
-- The runs of scaling/scif_mic.c and scaling/scif_kernel.c.
use xeon_phi_kernel_integrat.Base.{ℕ, List, ◌≡◌, refl, arith}
use xeon_phi_kernel_integrat.Aes.Context.{CryptoTfm, aes_keysize_256}
use xeon_phi_kernel_integrat.Aes.KeySchedule.{crypto_aes_set_key}
use xeon_phi_kernel_integrat.Memory.Laws.{IsBytes}
use xeon_phi_kernel_integrat.Client.Library.{Scif, IsDocumented}
use xeon_phi_kernel_integrat.Client.Step.{value, compute, tear_down}
use xeon_phi_kernel_integrat.Client.Session.{Session}
use xeon_phi_kernel_integrat.Client.SetUp.{set_up_registered}
use xeon_phi_kernel_integrat.Client.Crypt.{encrypt_pass, decrypt_pass}
use xeon_phi_kernel_integrat.Client.Rules.{weaken, Failure, Post, IsLoop, then_rule, compute_rule}
use xeon_phi_kernel_integrat.Client.Passes.{IsApart, IsSetting, Returned}
use xeon_phi_kernel_integrat.Client.Safe.{IsSafe-tear_down}
use xeon_phi_kernel_integrat.Client.Keyed.{IsKeyable, setting}
use xeon_phi_kernel_integrat.Client.Back.{IsBack, Halfway, encrypt_pass_step, decrypt_pass_step}
use xeon_phi_kernel_integrat.Client.Whole.{Outcome, whole, IsSafe-set_up_registered}
use xeon_phi_kernel_integrat.Scaling.Card.{half_len, scaling_benchmark, main_on}

module _ (lib : Scif) (doc : IsDocumented lib) (tfm : CryptoTfm) (s : Session) (w : lib.World)
    (v : IsSetting half_len tfm s (lib.peer_memory w)) where
  loop : IsLoop lib (Failure lib) (compute lib)
  loop = compute_rule lib (Failure lib) doc

  abbrev Half : lib.World → Type 0
  Half = Halfway lib doc (compute lib) loop half_len tfm s (lib.peer_memory w) v

  abbrev Decoded : lib.World → Type 0
  Decoded w' = Half w' × Returned half_len tfm s (lib.peer_memory w) v half_len (lib.peer_memory w')

  pub scaling_benchmark-IsBack :
      IsBytes (lib.local_memory w)
      → Post lib (Failure lib) (IsBack lib half_len s w) (scaling_benchmark lib tfm s w)
  unfolding scaling_benchmark
  scaling_benchmark-IsBack local =
      weaken lib Decoded (IsBack lib half_len s w) (scaling_benchmark lib tfm s w)
        (λ w' q i p. (q.1 i p, q.0.0.1 i p))
        (then_rule lib (Failure lib) Half Decoded
          (encrypt_pass lib (compute lib) tfm s s.tempbuffer half_len)
          (decrypt_pass lib (compute lib) tfm s half_len) w
          (encrypt_pass_step lib doc (compute lib) loop half_len tfm s (lib.peer_memory w) v
            s.tempbuffer half_len w (refl, omega arith) (local, λ i p. refl))
          λ w1 q.
            decrypt_pass_step lib doc (compute lib) loop half_len tfm s (lib.peer_memory w) v
              half_len w1 (refl, omega arith) q)

-- The programs of scaling/scif_mic.c and scaling/scif_kernel.c as a whole, by their port: where the
-- buffers that they have set up do not overlap and the memories then hold bytes, they return 0
-- after a run in which the host got back at `return_ptr` the `half_len` bytes that stood at
-- `remote_ptr` before the loops, or they return 1, in a state of the world that a failed call of
-- the library has just left.
pub main_on_lem :
    (lib : Scif) (port : ℕ) (tfm : CryptoTfm) (in_key : List ℕ) (w : lib.World)
    → IsDocumented lib
    → IsKeyable tfm aes_keysize_256
    → ((s : Session) (w1 : lib.World)
        → set_up_registered lib port half_len w ≡ (value s, w1)
        → IsApart half_len s × IsBytes (lib.local_memory w1) × IsBytes (lib.peer_memory w1))
    → Outcome lib
        (IsBack lib half_len)
        aes_keysize_256
        (set_up_registered lib port half_len)
        (scaling_benchmark lib)
        (λ s. tear_down lib s.endpoint s.ptr half_len)
        tfm
        in_key
        w
        (main_on lib port tfm in_key w)
unfolding main_on
main_on_lem lib port tfm in_key w doc k ready =
    whole lib (IsBack lib half_len) aes_keysize_256 (set_up_registered lib port half_len)
      (scaling_benchmark lib) (λ s. tear_down lib s.endpoint s.ptr half_len) tfm in_key w
      (IsSafe-set_up_registered lib port half_len w)
      (λ s w1 e.
        let (apart, local, peer) = ready s w1 e in
        scaling_benchmark-IsBack lib doc (crypto_aes_set_key tfm in_key aes_keysize_256).0 s w1
          (setting half_len tfm in_key aes_keysize_256 s (lib.peer_memory w1) k peer apart refl)
          local)
      (λ s w'. IsSafe-tear_down lib s.endpoint s.ptr half_len w')
