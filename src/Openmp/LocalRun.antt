-- ===== src/Openmp/LocalRun.antt =====
-- The loops of openmpmic/mic.c and scaling/mic.c.
use xeon_phi_kernel_integrat.Base.{ℕ, ◌+◌, ◌%◌, ◌<◌, List, ◌≡◌, inr, refl, arith}
use xeon_phi_kernel_integrat.Aes.Context.{CryptoTfm}
use xeon_phi_kernel_integrat.Aes.KeySchedule.{crypto_aes_set_key}
use xeon_phi_kernel_integrat.Memory.{Memory}
use xeon_phi_kernel_integrat.Memory.Laws.{IsBytes}
use xeon_phi_kernel_integrat.Memory.Loop.{Apart}
use xeon_phi_kernel_integrat.Memory.Buffer.{encrypt_round, decrypt_round}
use xeon_phi_kernel_integrat.Client.Library.{Scif, IsDocumented}
use xeon_phi_kernel_integrat.Client.Session.{Session, session}
use xeon_phi_kernel_integrat.Client.Step.{Exit, value, returned, for_sizes}
use xeon_phi_kernel_integrat.Client.Rules.{Post, then_rule, compute_rule, for_sizes_rule}
use xeon_phi_kernel_integrat.Client.Passes.{
  IsSetting, Loaded, Encrypted, Decrypted, encrypt_IsBytes, encrypt_Loaded, encrypt_Encrypted,
  decrypt_IsBytes, decrypt_Encrypted, decrypt_Decrypted,
}
use xeon_phi_kernel_integrat.Client.Keyed.{IsKeyable, setting}
use xeon_phi_kernel_integrat.Client.Back.{IsSize}
use xeon_phi_kernel_integrat.Client.Whole.{whole}
use xeon_phi_kernel_integrat.Openmp.Card.{sizearray, len}
use xeon_phi_kernel_integrat.Openmp.Benchmark.{later, sizes}
use xeon_phi_kernel_integrat.Openmp.Local.{
  Buffers, local_half_len, local_encrypt, local_decrypt, local_benchmark, local_scaling,
}

-- The loops as those of the card's program, with `ptr` itself in the place of the host's buffer.
abbrev alone : ℕ → Buffers → Session
alone n b = session 0 b.ptr b.tempbuffer b.outbuffer b.ptr (b.ptr + n)

-- `tempbuffer` overlaps neither of the other two buffers.
abbrev pub IsClear : ℕ → Buffers → Type 0
IsClear n b = Apart n b.tempbuffer b.ptr × Apart n b.outbuffer b.tempbuffer

-- `outbuffer` holds in the world `w'` what `ptr` held in `w`.
abbrev pub IsRestored : (lib : Scif) → ℕ → Buffers → lib.World → lib.World → Type 0
IsRestored lib n b w w' =
    (i : ℕ) → i < n → lib.local_memory w' (b.outbuffer + i) ≡ lib.local_memory w (b.ptr + i)

module _ (lib : Scif) (doc : IsDocumented lib) (all : ℕ) (tfm : CryptoTfm) (b : Buffers)
    (start : Memory) (v : IsSetting all tfm (alone all b) start) where
  abbrev Ready : lib.World → Type 0
  Ready w =
      IsBytes (lib.local_memory w) × Loaded all tfm (alone all b) start v all (lib.local_memory w)

  abbrev Crypted : lib.World → Type 0
  Crypted w =
      IsBytes (lib.local_memory w)
      × Encrypted all tfm (alone all b) start v all (lib.local_memory w)

  abbrev Made : ℕ → lib.World → Type 0
  Made n w = Ready w × Encrypted all tfm (alone all b) start v n (lib.local_memory w)

  abbrev Restored : ℕ → lib.World → Type 0
  Restored n w = Crypted w × Decrypted all tfm (alone all b) start v n (lib.local_memory w)

  local_encrypt_step :
      (n : ℕ) (w : lib.World)
      → IsSize all n
      → Ready w
      → Post lib (λ _. ⊥) (Made n) (local_encrypt lib tfm b n w)
  unfolding local_encrypt
  local_encrypt_step n w (whole, le) (cb, loaded) =
      compute_rule lib (λ _. ⊥) doc n (encrypt_round tfm b.tempbuffer b.ptr) w
        (λ card host.
          (IsBytes card × Loaded all tfm (alone all b) start v all card)
          × Encrypted all tfm (alone all b) start v n card)
        whole
        (λ order ord. (
          (
            encrypt_IsBytes all tfm (alone all b) start v n order (lib.local_memory w) whole le cb,
            encrypt_Loaded all tfm (alone all b) start v n order (lib.local_memory w) whole le ord
                loaded,
          ),
          encrypt_Encrypted all tfm (alone all b) start v n order (lib.local_memory w) whole le ord
              cb (λ i p. loaded i (omega arith)),
        ))

  local_decrypt_step :
      (n : ℕ) (w : lib.World)
      → IsSize all n
      → Crypted w
      → Post lib (λ _. ⊥) (Restored n) (local_decrypt lib tfm b n w)
  unfolding local_decrypt
  local_decrypt_step n w (whole, le) (cb, done) =
      compute_rule lib (λ _. ⊥) doc n (decrypt_round tfm b.outbuffer b.tempbuffer) w
        (λ card host.
          (IsBytes card × Encrypted all tfm (alone all b) start v all card)
          × Decrypted all tfm (alone all b) start v n card)
        whole
        (λ order ord. (
          (
            decrypt_IsBytes all tfm (alone all b) start v n order (lib.local_memory w) whole le cb,
            decrypt_Encrypted all tfm (alone all b) start v n order (lib.local_memory w) whole le
                ord done,
          ),
          decrypt_Decrypted all tfm (alone all b) start v n order (lib.local_memory w) whole le ord
              cb done,
        ))

-- a program that only computes has no call that fails
pub completed :
    (lib : Scif) (P Q : lib.World → Type 0) (o : Exit (Unit {0}) × lib.World)
    → Post lib (λ _. ⊥) P o
    → ((w : lib.World) → P w → Q w)
    → (o.0 ≡ value tt) × Q o.1
completed lib P Q (value tt, w) p h = (refl, h w p)
completed lib P Q (returned c, w) (e, f) h = absurd f

module _ (lib : Scif) (doc : IsDocumented lib) (tfm : CryptoTfm) (in_key : List ℕ) (key_len : ℕ)
    (k : IsKeyable tfm key_len) (b : Buffers) (w : lib.World)
    (card : IsBytes (lib.local_memory w)) where
  abbrev keyed : CryptoTfm
  keyed = (crypto_aes_set_key tfm in_key key_len).0

  local-IsSetting :
      (n : ℕ) → n % 16 ≡ 0 → IsClear n b → IsSetting n keyed (alone n b) (lib.local_memory w)
  local-IsSetting n whole (temp_ptr, out_temp) =
      setting n tfm in_key key_len (alone n b) (lib.local_memory w) k card
        (record { temp_ptr = temp_ptr; out_temp = out_temp; return_remote = inr (omega arith) })
        whole

  pub local_loops :
      IsClear len b
      → let (r, w') = local_benchmark lib keyed b w in (r ≡ value tt) × IsRestored lib len b w w'
  unfolding local_benchmark
  local_loops clear =
      let v = local-IsSetting len refl clear in
      completed lib (Restored lib doc len keyed b (lib.local_memory w) v len)
        (IsRestored lib len b w) (local_benchmark lib keyed b w)
        (then_rule lib (λ _. ⊥) (Made lib doc len keyed b (lib.local_memory w) v len)
          (Restored lib doc len keyed b (lib.local_memory w) v len)
          (for_sizes 15 sizearray (local_encrypt lib keyed b))
          (for_sizes 15 sizearray (local_decrypt lib keyed b)) w
          (for_sizes_rule lib (λ _. ⊥) 14 (IsSize len)
            (Ready lib doc len keyed b (lib.local_memory w) v)
            (λ n w'.
              Encrypted len keyed (alone len b) (lib.local_memory w) v n (lib.local_memory w'))
            (local_encrypt lib keyed b)
            (local_encrypt_step lib doc len keyed b (lib.local_memory w) v) 64 later w sizes
            (card, λ i p. refl))
          λ w' q.
            for_sizes_rule lib (λ _. ⊥) 14 (IsSize len)
              (Crypted lib doc len keyed b (lib.local_memory w) v)
              (λ n w''.
                Decrypted len keyed (alone len b) (lib.local_memory w) v n (lib.local_memory w''))
              (local_decrypt lib keyed b)
              (local_decrypt_step lib doc len keyed b (lib.local_memory w) v) 64 later w' sizes
              (q.0.0, q.1))
        (λ w' q. q.1)

  pub local_scaling_loops :
      IsClear local_half_len b
      → let (r, w') = local_scaling lib keyed b w in
        (r ≡ value tt) × IsRestored lib local_half_len b w w'
  unfolding local_scaling
  local_scaling_loops clear =
      let v = local-IsSetting local_half_len refl clear in
      completed lib (Restored lib doc local_half_len keyed b (lib.local_memory w) v local_half_len)
        (IsRestored lib local_half_len b w) (local_scaling lib keyed b w)
        (then_rule lib (λ _. ⊥)
          (Made lib doc local_half_len keyed b (lib.local_memory w) v local_half_len)
          (Restored lib doc local_half_len keyed b (lib.local_memory w) v local_half_len)
          (local_encrypt lib keyed b local_half_len) (local_decrypt lib keyed b local_half_len) w
          (local_encrypt_step lib doc local_half_len keyed b (lib.local_memory w) v local_half_len w
            (refl, omega arith) (card, λ i p. refl))
          λ w' q.
            local_decrypt_step lib doc local_half_len keyed b (lib.local_memory w) v local_half_len
              w' (refl, omega arith) (q.0.0, q.1))
        (λ w' q. q.1)

-- The loops of openmpmic/mic.c always run to their end and give the buffer back: with a context that
-- `crypto_aes_set_key` has filled from a key of 16, 24 or 32 bytes, buffers of `len` bytes of which
-- `tempbuffer` overlaps neither of the other two, a memory that holds bytes and an OpenMP runtime
-- that makes each round, `outbuffer` holds at the end the `len` bytes that stood at `ptr`.
pub local_benchmark_lem :
    (lib : Scif) (tfm : CryptoTfm) (in_key : List ℕ) (key_len : ℕ) (b : Buffers) (w : lib.World)
    → IsDocumented lib
    → IsKeyable tfm key_len
    → IsClear len b
    → IsBytes (lib.local_memory w)
    → let keyed = (crypto_aes_set_key tfm in_key key_len).0 in
      let (r, w') = local_benchmark lib keyed b w in
      (r ≡ value tt)
      × ((i : ℕ) → i < len → lib.local_memory w' (b.outbuffer + i) ≡ lib.local_memory w (b.ptr + i))
local_benchmark_lem lib tfm in_key key_len b w doc k clear card =
    local_loops lib doc tfm in_key key_len k b w card clear
