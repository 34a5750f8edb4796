-- ===== src/Openmp/LocalMain.antt =====
-- The programs of openmpmic/mic.c and scaling/mic.c as a whole.
use xeon_phi_kernel_integrat.Base.{ℕ, List, ◌≡◌}
use xeon_phi_kernel_integrat.Aes.Context.{CryptoTfm, aes_keysize_128, aes_keysize_256}
use xeon_phi_kernel_integrat.Aes.KeySchedule.{crypto_aes_set_key}
use xeon_phi_kernel_integrat.Memory.Laws.{IsBytes}
use xeon_phi_kernel_integrat.Client.Library.{Scif, IsDocumented}
use xeon_phi_kernel_integrat.Client.Step.{Exit, value, returned, finish}
use xeon_phi_kernel_integrat.Client.Safe.{
  IsSafe, IsSafe-bind, IsSafe-then, IsSafe-finish, IsSafe-effect, IsSafe-allocate,
  IsSafe-clear_buffer,
}
use xeon_phi_kernel_integrat.Client.Rules.{Failure, Post}
use xeon_phi_kernel_integrat.Client.Keyed.{IsKeyable}
use xeon_phi_kernel_integrat.Client.Whole.{Outcome, whole}
use xeon_phi_kernel_integrat.Openmp.Card.{len}
use xeon_phi_kernel_integrat.Openmp.Local.{
  Buffers, buffers, local_half_len, local_benchmark, local_set_up, local_tear_down, local_main,
  local_scaling, local_scaling_main,
}
use xeon_phi_kernel_integrat.Openmp.LocalRun.{IsClear, IsRestored, local_loops, local_scaling_loops}

harmless :
    (lib : Scif) (Q : lib.World → Type 0) (o : Exit (Unit {0}) × lib.World)
    → (o.0 ≡ value tt) × Q o.1
    → Post lib (Failure lib) Q o
harmless lib Q (value tt, w) q = q.1
harmless lib Q (returned c, w) (e, q) = cc

IsSafe-local_set_up : (lib : Scif) (n : ℕ) → IsSafe lib (local_set_up lib n)
unfolding local_set_up
IsSafe-local_set_up lib n = IsSafe-bind lib _ _ (IsSafe-allocate lib n) λ p.
    IsSafe-then lib _ _ (IsSafe-clear_buffer lib n p) (
      IsSafe-bind lib _ _ (IsSafe-allocate lib n) λ t.
        IsSafe-bind lib _ (λ o. finish (buffers p t o)) (IsSafe-allocate lib n)
          λ o. IsSafe-finish lib (buffers p t o))

IsSafe-local_tear_down : (lib : Scif) (b : Buffers) → IsSafe lib (local_tear_down lib b)
unfolding local_tear_down
IsSafe-local_tear_down lib b =
    IsSafe-effect lib (λ w. lib.free b.outbuffer (lib.free b.tempbuffer (lib.free b.ptr w)))

-- The program of openmpmic/mic.c as a whole: where the buffers that it has set up do not overlap
-- and the memory then holds bytes, it returns 0 after a run that has restored the `len` bytes of
-- `ptr` in `outbuffer`, or it returns 1, in a state of the world that a failed call of the library
-- has just left.
pub local_main_lem :
    (lib : Scif) (tfm : CryptoTfm) (in_key : List ℕ) (w : lib.World)
    → IsDocumented lib
    → IsKeyable tfm aes_keysize_128
    → ((b : Buffers) (w1 : lib.World)
        → local_set_up lib len w ≡ (value b, w1)
        → IsClear len b × IsBytes (lib.local_memory w1))
    → Outcome lib
        (IsRestored lib len)
        aes_keysize_128
        (local_set_up lib len)
        (local_benchmark lib)
        (local_tear_down lib)
        tfm
        in_key
        w
        (local_main lib tfm in_key w)
unfolding local_main
local_main_lem lib tfm in_key w doc k ready =
    whole lib (IsRestored lib len) aes_keysize_128 (local_set_up lib len) (local_benchmark lib)
      (local_tear_down lib) tfm in_key w (IsSafe-local_set_up lib len w)
      (λ b w1 e.
        let (clear, card) = ready b w1 e in
        harmless lib (IsRestored lib len b w1)
          (local_benchmark lib (crypto_aes_set_key tfm in_key aes_keysize_128).0 b w1)
          (local_loops lib doc tfm in_key aes_keysize_128 k b w1 card clear))
      (IsSafe-local_tear_down lib)

-- The program of scaling/mic.c as a whole, in the same way, for its buffers of `local_half_len` bytes
-- and its key of 32 bytes.
pub local_scaling_main_lem :
    (lib : Scif) (tfm : CryptoTfm) (in_key : List ℕ) (w : lib.World)
    → IsDocumented lib
    → IsKeyable tfm aes_keysize_256
    → ((b : Buffers) (w1 : lib.World)
        → local_set_up lib local_half_len w ≡ (value b, w1)
        → IsClear local_half_len b × IsBytes (lib.local_memory w1))
    → Outcome lib
        (IsRestored lib local_half_len)
        aes_keysize_256
        (local_set_up lib local_half_len)
        (local_scaling lib)
        (local_tear_down lib)
        tfm
        in_key
        w
        (local_scaling_main lib tfm in_key w)
unfolding local_scaling_main
local_scaling_main_lem lib tfm in_key w doc k ready =
    whole lib (IsRestored lib local_half_len) aes_keysize_256 (local_set_up lib local_half_len)
      (local_scaling lib) (local_tear_down lib) tfm in_key w
      (IsSafe-local_set_up lib local_half_len w)
      (λ b w1 e.
        let (clear, card) = ready b w1 e in
        harmless lib (IsRestored lib local_half_len b w1)
          (local_scaling lib (crypto_aes_set_key tfm in_key aes_keysize_256).0 b w1)
          (local_scaling_loops lib doc tfm in_key aes_keysize_256 k b w1 card clear))
      (IsSafe-local_tear_down lib)
