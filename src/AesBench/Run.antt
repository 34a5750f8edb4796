-- ===== src/AesBench/Run.antt =====
-- The run of aes_bench/scif_mic.c.
use xeon_phi_kernel_integrat.Base.{ℕ, List, [], ◌∷◌, ◌≡◌, refl, arith}
use xeon_phi_kernel_integrat.Aes.Context.{CryptoTfm, aes_keysize_128}
use xeon_phi_kernel_integrat.Aes.KeySchedule.{crypto_aes_set_key}
use xeon_phi_kernel_integrat.Memory.Laws.{IsBytes}
use xeon_phi_kernel_integrat.Client.Library.{Scif, IsDocumented}
use xeon_phi_kernel_integrat.Client.Step.{M, value, ◌>>◌, for_sizes, compute_in_order, tear_down}
use xeon_phi_kernel_integrat.Client.Session.{Session}
use xeon_phi_kernel_integrat.Client.SetUp.{set_up}
use xeon_phi_kernel_integrat.Client.Crypt.{encrypt_pass, decrypt_pass}
use xeon_phi_kernel_integrat.Client.Rules.{
  weaken, All, Failure, Post, IsLoop, then_rule, compute_in_order_rule,
}
use xeon_phi_kernel_integrat.Client.Passes.{IsApart, IsSetting, Encrypted, Returned}
use xeon_phi_kernel_integrat.Client.Safe.{IsSafe-tear_down}
use xeon_phi_kernel_integrat.Client.Keyed.{IsKeyable, setting}
use xeon_phi_kernel_integrat.Client.Back.{
  IsSize, IsBack, Before, Halfway, encrypt_loop, decrypt_loop,
}
use xeon_phi_kernel_integrat.Client.Whole.{Outcome, whole, IsSafe-set_up}
use xeon_phi_kernel_integrat.Openmp.Card.{len}
use xeon_phi_kernel_integrat.AesBench.Card.{small_sizes, large_sizes, single_benchmark, single_main}

small : All (IsSize len) small_sizes
small = (
  (refl, omega arith),
  (
    (refl, omega arith),
    ((refl, omega arith), ((refl, omega arith), ((refl, omega arith), ((refl, omega arith), tt)))),
  ),
)

large : All (IsSize len) large_sizes
large =
    ((refl, omega arith), ((refl, omega arith), ((refl, omega arith), ((refl, omega arith), tt))))

module _ (lib : Scif) (tfm : CryptoTfm) (s : Session) where
  abbrev small_enc : M lib.World (Unit {0})
  small_enc = for_sizes 15 small_sizes (encrypt_pass lib (compute_in_order lib) tfm s s.outbuffer)

  abbrev large_enc : M lib.World (Unit {0})
  large_enc = for_sizes 1 large_sizes (encrypt_pass lib (compute_in_order lib) tfm s s.outbuffer)

  abbrev small_dec : M lib.World (Unit {0})
  small_dec = for_sizes 15 small_sizes (decrypt_pass lib (compute_in_order lib) tfm s)

  abbrev large_dec : M lib.World (Unit {0})
  large_dec = for_sizes 1 large_sizes (decrypt_pass lib (compute_in_order lib) tfm s)

module _ (lib : Scif) (doc : IsDocumented lib) (tfm : CryptoTfm) (s : Session) (w : lib.World)
    (v : IsSetting len tfm s (lib.peer_memory w)) where
  loop : IsLoop lib (Failure lib) (compute_in_order lib)
  loop = compute_in_order_rule lib (Failure lib) doc

  abbrev Ready : lib.World → Type 0
  Ready = Before lib doc (compute_in_order lib) loop len tfm s (lib.peer_memory w) v

  abbrev Half : lib.World → Type 0
  Half = Halfway lib doc (compute_in_order lib) loop len tfm s (lib.peer_memory w) v

  abbrev Encoded : ℕ → lib.World → Type 0
  Encoded n w' = Ready w' × Encrypted len tfm s (lib.peer_memory w) v n (lib.local_memory w')

  abbrev Decoded : ℕ → lib.World → Type 0
  Decoded n w' = Half w' × Returned len tfm s (lib.peer_memory w) v n (lib.peer_memory w')

  decrypting :
      (w' : lib.World)
      → Half w'
      → Post lib (Failure lib) (Decoded len) ((small_dec lib tfm s >> large_dec lib tfm s) w')
  decrypting w' half =
      then_rule lib (Failure lib) (Decoded 1048576) (Decoded len) (small_dec lib tfm s)
        (large_dec lib tfm s) w'
        (decrypt_loop lib doc (compute_in_order lib) loop len tfm s (lib.peer_memory w) v 14 64
          (1024 ∷ 4096 ∷ 16384 ∷ 131072 ∷ 1048576 ∷ []) w' small half)
        λ w1 q.
          decrypt_loop lib doc (compute_in_order lib) loop len tfm s (lib.peer_memory w) v 0
            134217728 (268435456 ∷ 536870912 ∷ 1073741824 ∷ []) w1 large q.0

  pub single_benchmark-IsBack :
      IsBytes (lib.local_memory w)
      → Post lib (Failure lib) (IsBack lib len s w) (single_benchmark lib tfm s w)
  unfolding single_benchmark
  single_benchmark-IsBack local =
      weaken lib (Decoded len) (IsBack lib len s w) (single_benchmark lib tfm s w)
        (λ w' q i p. (q.1 i p, q.0.0.1 i p))
        (then_rule lib (Failure lib) (Encoded 1048576) (Decoded len) (small_enc lib tfm s)
          (large_enc lib tfm s >> (small_dec lib tfm s >> large_dec lib tfm s)) w
          (encrypt_loop lib doc (compute_in_order lib) loop len tfm s (lib.peer_memory w) v
            s.outbuffer 14 64 (1024 ∷ 4096 ∷ 16384 ∷ 131072 ∷ 1048576 ∷ []) w small
            (local, λ i p. refl))
          λ w1 q1.
            then_rule lib (Failure lib) (Encoded len) (Decoded len) (large_enc lib tfm s)
              (small_dec lib tfm s >> large_dec lib tfm s) w1
              (encrypt_loop lib doc (compute_in_order lib) loop len tfm s (lib.peer_memory w) v
                s.outbuffer 0 134217728 (268435456 ∷ 536870912 ∷ 1073741824 ∷ []) w1 large q1.0)
              λ w2 q2. decrypting w2 q2)

-- The program of aes_bench/scif_mic.c as a whole: where the buffers that it has set up do not
-- overlap and the memories then hold bytes, it returns 0 after a run in which the host got back at
-- `return_ptr` the `len` bytes that stood at `remote_ptr` before the loops, or it returns 1, in a
-- state of the world that a failed call of the library has just left.
pub single_main_lem :
    (lib : Scif) (tfm : CryptoTfm) (in_key : List ℕ) (w : lib.World)
    → IsDocumented lib
    → IsKeyable tfm aes_keysize_128
    → ((s : Session) (w1 : lib.World)
        → set_up lib 23954 len w ≡ (value s, w1)
        → IsApart len s × IsBytes (lib.local_memory w1) × IsBytes (lib.peer_memory w1))
    → Outcome lib
        (IsBack lib len)
        aes_keysize_128
        (set_up lib 23954 len)
        (single_benchmark lib)
        (λ s. tear_down lib s.endpoint s.ptr len)
        tfm
        in_key
        w
        (single_main lib tfm in_key w)
unfolding single_main
single_main_lem lib tfm in_key w doc k ready =
    whole lib (IsBack lib len) aes_keysize_128 (set_up lib 23954 len) (single_benchmark lib)
      (λ s. tear_down lib s.endpoint s.ptr len) tfm in_key w (IsSafe-set_up lib 23954 len w)
      (λ s w1 e.
        let (apart, local, peer) = ready s w1 e in
        single_benchmark-IsBack lib doc (crypto_aes_set_key tfm in_key aes_keysize_128).0 s w1
          (setting len tfm in_key aes_keysize_128 s (lib.peer_memory w1) k peer apart refl) local)
      (λ s w'. IsSafe-tear_down lib s.endpoint s.ptr len w')
