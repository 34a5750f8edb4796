-- ===== src/Tests/Programs.antt =====
-- The theorems on whole programs at a concrete library, key and memory.
use xeon_phi_kernel_integrat.Base.{ℕ, List, replicate, ◌+◌, ◌<◌, ◌≡◌, ◌⊎◌, inl, inr, refl, arith}
use mathlib.Core.Path.{subst}
use xeon_phi_kernel_integrat.Memory.{Memory}
use xeon_phi_kernel_integrat.Memory.Laws.{IsBytes}
use xeon_phi_kernel_integrat.Aes.Context.{aes_keysize_128, aes_keysize_256}
use xeon_phi_kernel_integrat.Client.Step.{
  Exit, value, returned, clear, tear_down, open_connection, allocate, register, clear_buffer, check,
  obtain, effect, connect, retry,
}
use xeon_phi_kernel_integrat.Client.Session.{Session, session}
use xeon_phi_kernel_integrat.Client.SetUp.{set_up, set_up_registered}
use xeon_phi_kernel_integrat.Client.Rules.{Failure}
use xeon_phi_kernel_integrat.Client.Passes.{IsApart}
use xeon_phi_kernel_integrat.Client.Keyed.{IsKeyable}
use xeon_phi_kernel_integrat.Client.Back.{IsBack}
use xeon_phi_kernel_integrat.Client.Whole.{Outcome}
use xeon_phi_kernel_integrat.Openmp.Card.{len, benchmark, main}
use xeon_phi_kernel_integrat.Openmp.Kernel.{kernel_len, kernel_benchmark, kernel_main}
use xeon_phi_kernel_integrat.Openmp.Benchmark.{benchmark_lem, main_lem, kernel_main_lem}
use xeon_phi_kernel_integrat.AesBench.Card.{single_benchmark, single_main}
use xeon_phi_kernel_integrat.AesBench.Run.{single_main_lem}
use xeon_phi_kernel_integrat.Scaling.Card.{half_len, scaling_benchmark, main_on}
use xeon_phi_kernel_integrat.Scaling.Run.{main_on_lem}
use xeon_phi_kernel_integrat.Tests.Cipher.{blank, key_128, keyed, blank-IsContext, zeros-AllWords}
use xeon_phi_kernel_integrat.Tests.Buffers.{counting, counting-IsBytes}
use xeon_phi_kernel_integrat.Tests.Loopback.{TwoMemories, loopback, loopback-IsDocumented}

pub blank-IsKeyable : IsKeyable blank 16
blank-IsKeyable = record {
  context = blank-IsContext;
  dec_words = zeros-AllWords 60;
  length_ok = inl refl;
}

abbrev pub key_256 : List ℕ
key_256 = replicate 32 7

pub blank-IsKeyable_256 : IsKeyable blank 32
blank-IsKeyable_256 = record {
  context = blank-IsContext;
  dec_words = zeros-AllWords 60;
  length_ok = inr (inr refl);
}

abbrev pub both : TwoMemories
both = record { card = counting; host = counting; next = 0 }

abbrev pub apart_session : Session
apart_session = session 3 0 1073741824 2147483648 3221225472 4294967296

apart_session-IsApart : IsApart len apart_session
apart_session-IsApart = record {
  temp_ptr = inr (omega arith);
  out_temp = inr (omega arith);
  return_remote = inr (omega arith);
}

benchmark_lem_example :
    let (r, w') = benchmark loopback keyed apart_session both in
    ((r ≡ value tt)
      × ((i : ℕ)
          → i < len
          → (w'.host (apart_session.return_ptr + i) ≡ counting (apart_session.remote_ptr + i))
            × (w'.host (apart_session.remote_ptr + i) ≡ counting (apart_session.remote_ptr + i))))
    ⊎ ((r ≡ returned 1) × Failure loopback w')
benchmark_lem_example =
    benchmark_lem loopback blank key_128 16 apart_session both loopback-IsDocumented blank-IsKeyable
      apart_session-IsApart counting-IsBytes counting-IsBytes

pub clear-IsBytes : (n a : ℕ) (m : Memory) → IsBytes m → IsBytes (clear n a m)
unfolding clear
clear-IsBytes n a m h x = ground (arith, h x)

-- What the theorems ask of a set-up that has gone through.
abbrev Fits : ℕ → Exit Session × TwoMemories → Type 0
Fits n (value s, w) = IsApart n s × IsBytes w.card × IsBytes w.host
Fits n (returned c, w) = Unit {0}

set_up-Fits : Fits len (set_up loopback 23968 len both)
unfolding set_up open_connection allocate register clear_buffer check obtain effect connect retry
set_up-Fits =
    (apart_session-IsApart, clear-IsBytes len 0 counting counting-IsBytes, counting-IsBytes)

main_lem_example :
    Outcome loopback
      (IsBack loopback len)
      aes_keysize_128
      (set_up loopback 23968 len)
      (benchmark loopback)
      (λ s. tear_down loopback s.endpoint s.ptr len)
      blank
      key_128
      both
      (main loopback blank key_128 both)
main_lem_example =
    main_lem loopback blank key_128 both loopback-IsDocumented blank-IsKeyable
      (λ s w1 e. subst (Fits len) e set_up-Fits)

kernel_set_up-Fits : Fits kernel_len (set_up_registered loopback 23969 kernel_len both)
unfolding set_up_registered open_connection allocate register clear_buffer check obtain effect
    connect retry
kernel_set_up-Fits =
    (apart_session-IsApart, clear-IsBytes len 0 counting counting-IsBytes, counting-IsBytes)

kernel_main_lem_example :
    Outcome loopback
      (IsBack loopback kernel_len)
      aes_keysize_128
      (set_up_registered loopback 23969 kernel_len)
      (kernel_benchmark loopback)
      (λ s. tear_down loopback s.endpoint s.ptr kernel_len)
      blank
      key_128
      both
      (kernel_main loopback blank key_128 both)
kernel_main_lem_example =
    kernel_main_lem loopback blank key_128 both loopback-IsDocumented blank-IsKeyable
      (λ s w1 e. subst (Fits kernel_len) e kernel_set_up-Fits)

single_set_up-Fits : Fits len (set_up loopback 23954 len both)
unfolding set_up open_connection allocate register clear_buffer check obtain effect connect retry
single_set_up-Fits =
    (apart_session-IsApart, clear-IsBytes len 0 counting counting-IsBytes, counting-IsBytes)

single_main_lem_example :
    Outcome loopback
      (IsBack loopback len)
      aes_keysize_128
      (set_up loopback 23954 len)
      (single_benchmark loopback)
      (λ s. tear_down loopback s.endpoint s.ptr len)
      blank
      key_128
      both
      (single_main loopback blank key_128 both)
single_main_lem_example =
    single_main_lem loopback blank key_128 both loopback-IsDocumented blank-IsKeyable
      (λ s w1 e. subst (Fits len) e single_set_up-Fits)

-- the buffers of half the size
half-IsApart : IsApart half_len (session 3 0 536870912 1073741824 1610612736 2684354560)
half-IsApart = record {
  temp_ptr = inr (omega arith);
  out_temp = inr (omega arith);
  return_remote = inr (omega arith);
}

scaling_set_up-Fits : Fits half_len (set_up_registered loopback 23968 half_len both)
unfolding set_up_registered open_connection allocate register clear_buffer check obtain effect
    connect retry
scaling_set_up-Fits =
    (half-IsApart, clear-IsBytes half_len 0 counting counting-IsBytes, counting-IsBytes)

main_on_lem_example :
    Outcome loopback
      (IsBack loopback half_len)
      aes_keysize_256
      (set_up_registered loopback 23968 half_len)
      (scaling_benchmark loopback)
      (λ s. tear_down loopback s.endpoint s.ptr half_len)
      blank
      key_256
      both
      (main_on loopback 23968 blank key_256 both)
main_on_lem_example =
    main_on_lem loopback 23968 blank key_256 both loopback-IsDocumented blank-IsKeyable_256
      (λ s w1 e. subst (Fits half_len) e scaling_set_up-Fits)
