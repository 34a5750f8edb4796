-- ===== src/Openmp/Benchmark.antt =====
-- The runs of openmpmic/scif_mic.c and openmpmic/scif_kernel.c.
use xeon_phi_kernel_integrat.Base.{ℕ, ◌+◌, ◌≤◌, ◌<◌, List, [], ◌∷◌, ◌≡◌, ◌⊎◌, refl, arith}
use xeon_phi_kernel_integrat.Aes.Context.{CryptoTfm, aes_keysize_128}
use xeon_phi_kernel_integrat.Aes.KeySchedule.{crypto_aes_set_key}
use xeon_phi_kernel_integrat.Memory.Laws.{IsBytes}
use xeon_phi_kernel_integrat.Client.Library.{Scif, IsDocumented}
use xeon_phi_kernel_integrat.Client.Step.{value, returned, tear_down}
use xeon_phi_kernel_integrat.Client.Session.{Session}
use xeon_phi_kernel_integrat.Client.SetUp.{set_up, set_up_registered}
use xeon_phi_kernel_integrat.Client.Rules.{All, Failure, Post}
use xeon_phi_kernel_integrat.Client.Passes.{IsApart}
use xeon_phi_kernel_integrat.Client.Safe.{IsSafe-tear_down}
use xeon_phi_kernel_integrat.Client.Keyed.{IsKeyable, setting}
use xeon_phi_kernel_integrat.Client.Back.{IsSize, IsBack, outcome, both_loops-IsBack}
use xeon_phi_kernel_integrat.Client.Whole.{Outcome, whole, IsSafe-set_up, IsSafe-set_up_registered}
use xeon_phi_kernel_integrat.Openmp.Card.{benchmark, main, sizearray, len}
use xeon_phi_kernel_integrat.Openmp.Kernel.{kernel_benchmark, kernel_main, kernel_len}

abbrev pub later : List ℕ
later = 1024 ∷ 4096 ∷ 16384 ∷ 131072 ∷ 1048576 ∷ 134217728 ∷ 268435456 ∷ 536870912 ∷ 1073741824 ∷ []

pub sizes : All (IsSize len) sizearray
sizes = (
  (refl, omega arith),
  (
    (refl, omega arith),
    (
      (refl, omega arith),
      (
        (refl, omega arith),
        (
          (refl, omega arith),
          (
            (refl, omega arith),
            (
              (refl, omega arith),
              ((refl, omega arith), ((refl, omega arith), ((refl, omega arith), tt))),
            ),
          ),
        ),
      ),
    ),
  ),
)

pub below : All (λ k. k ≤ len) sizearray
below = (
  omega arith,
  (
    omega arith,
    (
      omega arith,
      (
        omega arith,
        (
          omega arith,
          (omega arith, (omega arith, (omega arith, (omega arith, (omega arith, tt))))),
        ),
      ),
    ),
  ),
)

module _ (lib : Scif) (doc : IsDocumented lib) (tfm : CryptoTfm) (in_key : List ℕ) (key_len : ℕ)
    (k : IsKeyable tfm key_len) (s : Session) (w : lib.World) (apart : IsApart len s)
    (local : IsBytes (lib.local_memory w)) (peer : IsBytes (lib.peer_memory w)) where
  abbrev keyed : CryptoTfm
  keyed = (crypto_aes_set_key tfm in_key key_len).0

  pub benchmark-IsBack : Post lib (Failure lib) (IsBack lib len s w) (benchmark lib keyed s w)
  unfolding benchmark
  benchmark-IsBack =
      both_loops-IsBack lib doc len 64 later keyed s s.outbuffer w
        (setting len tfm in_key key_len s (lib.peer_memory w) k peer apart refl) local sizes refl

  kernel_benchmark-IsBack :
      Post lib (Failure lib) (IsBack lib len s w) (kernel_benchmark lib keyed s w)
  unfolding kernel_benchmark
  kernel_benchmark-IsBack =
      both_loops-IsBack lib doc len 64 later keyed s s.tempbuffer w
        (setting len tfm in_key key_len s (lib.peer_memory w) k peer apart refl) local sizes refl

-- The benchmark of openmpmic/scif_mic.c gives the host its data back: with a context that
-- `crypto_aes_set_key` has filled from a key of 16, 24 or 32 bytes, buffers of `len` bytes that do
-- not overlap, memories that hold bytes, and a SCIF library and an OpenMP runtime that keep to
-- their documentation, either both loops run to their end, and the host's buffer at `return_ptr`
-- holds the `len` bytes that stood, and still stand, at `remote_ptr`, or `main` returns 1, in a
-- state of the world that a failed call of the library has just left.
pub benchmark_lem :
    (lib : Scif) (tfm : CryptoTfm) (in_key : List ℕ) (key_len : ℕ) (s : Session) (w : lib.World)
    → IsDocumented lib
    → IsKeyable tfm key_len
    → IsApart len s
    → IsBytes (lib.local_memory w)
    → IsBytes (lib.peer_memory w)
    → let keyed = (crypto_aes_set_key tfm in_key key_len).0 in
      let (r, w') = benchmark lib keyed s w in
      ((r ≡ value tt)
        × ((i : ℕ)
            → i < len
            → (lib.peer_memory w' (s.return_ptr + i) ≡ lib.peer_memory w (s.remote_ptr + i))
              × (lib.peer_memory w' (s.remote_ptr + i) ≡ lib.peer_memory w (s.remote_ptr + i))))
      ⊎ ((r ≡ returned 1) × Failure lib w')
benchmark_lem lib tfm in_key key_len s w doc k apart local peer =
    outcome lib (IsBack lib len s w) (benchmark lib (crypto_aes_set_key tfm in_key key_len).0 s w)
      (benchmark-IsBack lib doc tfm in_key key_len k s w apart local peer)

-- The program of openmpmic/scif_mic.c as a whole: where the buffers that it has set up do not
-- overlap and the memories then hold bytes, it returns 0 after a run in which the host got back at
-- `return_ptr` the `len` bytes that stood at `remote_ptr` before the loops, or it returns 1, in a
-- state of the world that a failed call of the library has just left.
pub main_lem :
    (lib : Scif) (tfm : CryptoTfm) (in_key : List ℕ) (w : lib.World)
    → IsDocumented lib
    → IsKeyable tfm aes_keysize_128
    → ((s : Session) (w1 : lib.World)
        → set_up lib 23968 len w ≡ (value s, w1)
        → IsApart len s × IsBytes (lib.local_memory w1) × IsBytes (lib.peer_memory w1))
    → Outcome lib
        (IsBack lib len)
        aes_keysize_128
        (set_up lib 23968 len)
        (benchmark lib)
        (λ s. tear_down lib s.endpoint s.ptr len)
        tfm
        in_key
        w
        (main lib tfm in_key w)
unfolding main
main_lem lib tfm in_key w doc k ready =
    whole lib (IsBack lib len) aes_keysize_128 (set_up lib 23968 len) (benchmark lib)
      (λ s. tear_down lib s.endpoint s.ptr len) tfm in_key w (IsSafe-set_up lib 23968 len w)
      (λ s w1 e.
        let (apart, local, peer) = ready s w1 e in
        benchmark-IsBack lib doc tfm in_key aes_keysize_128 k s w1 apart local peer)
      (λ s w'. IsSafe-tear_down lib s.endpoint s.ptr len w')

-- The program of openmpmic/scif_kernel.c as a whole: where the buffers that it has set up do not
-- overlap and the memories then hold bytes, it returns 0 after a run in which the host got back at
-- `return_ptr` the `kernel_len` bytes that stood at `remote_ptr` before the loops, or it returns 1,
-- in a state of the world that a failed call of the library has just left.
pub kernel_main_lem :
    (lib : Scif) (tfm : CryptoTfm) (in_key : List ℕ) (w : lib.World)
    → IsDocumented lib
    → IsKeyable tfm aes_keysize_128
    → ((s : Session) (w1 : lib.World)
        → set_up_registered lib 23969 kernel_len w ≡ (value s, w1)
        → IsApart kernel_len s × IsBytes (lib.local_memory w1) × IsBytes (lib.peer_memory w1))
    → Outcome lib
        (IsBack lib kernel_len)
        aes_keysize_128
        (set_up_registered lib 23969 kernel_len)
        (kernel_benchmark lib)
        (λ s. tear_down lib s.endpoint s.ptr kernel_len)
        tfm
        in_key
        w
        (kernel_main lib tfm in_key w)
unfolding kernel_main
kernel_main_lem lib tfm in_key w doc k ready =
    whole lib (IsBack lib kernel_len) aes_keysize_128 (set_up_registered lib 23969 kernel_len)
      (kernel_benchmark lib) (λ s. tear_down lib s.endpoint s.ptr kernel_len) tfm in_key w
      (IsSafe-set_up_registered lib 23969 kernel_len w)
      (λ s w1 e.
        let (apart, local, peer) = ready s w1 e in
        kernel_benchmark-IsBack lib doc tfm in_key aes_keysize_128 k s w1 apart local peer)
      (λ s w'. IsSafe-tear_down lib s.endpoint s.ptr kernel_len w')
