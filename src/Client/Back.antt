-- ===== src/Client/Back.antt =====
-- What the host gets back from a program that encrypts and decrypts over SCIF.
use xeon_phi_kernel_integrat.Base.{
  ℕ, suc, ◌+◌, ◌%◌, ◌≤◌, ◌<◌, List, ◌∷◌, ◌≡◌, ◌⊎◌, inl, inr, ap, refl, arith,
}
use xeon_phi_kernel_integrat.Aes.Context.{CryptoTfm}
use xeon_phi_kernel_integrat.Memory.{Memory, parallel_for}
use xeon_phi_kernel_integrat.Memory.Laws.{IsBytes}
use xeon_phi_kernel_integrat.Memory.Loop.{IsOrder}
use xeon_phi_kernel_integrat.Memory.Buffer.{encrypt_round, decrypt_round}
use xeon_phi_kernel_integrat.Client.Library.{Scif, IsDocumented, IsCopied}
use xeon_phi_kernel_integrat.Client.Session.{Session}
use xeon_phi_kernel_integrat.Client.Step.{Exit, value, returned, M, ◌>>◌, check, compute, for_sizes}
use xeon_phi_kernel_integrat.Client.Crypt.{encrypt_pass, decrypt_pass, both_loops}
use xeon_phi_kernel_integrat.Client.Rules.{
  All, last, Failure, read_failed, write_failed, Post, then_rule, check_rule, for_sizes_rule,
  IsLoop, compute_rule, weaken,
}
use xeon_phi_kernel_integrat.Client.Passes.{
  IsSetting, Kept, Loaded, Encrypted, Decrypted, Returned, read_Loaded, read_Kept, read_Encrypted,
  encrypt_IsBytes, encrypt_Encrypted, decrypt_IsBytes, decrypt_Encrypted, decrypt_Decrypted,
  write_Kept, write_Returned,
}

-- a size that the loops can work on: whole blocks that fit into the buffers
abbrev pub IsSize : ℕ → ℕ → Type 0
IsSize len n = (n % 16 ≡ 0) × (n ≤ len)

module _ (lib : Scif) (doc : IsDocumented lib)
    (run : ℕ → (ℕ → Memory → Memory) → M lib.World (Unit {0})) (loop : IsLoop lib (Failure lib) run)
    (len : ℕ) (tfm : CryptoTfm) (s : Session) (start : Memory) (v : IsSetting len tfm s start) where
  abbrev pub Before : lib.World → Type 0
  Before w = Kept len tfm s start v (lib.local_memory w) (lib.peer_memory w)

  abbrev pub Halfway : lib.World → Type 0
  Halfway w = Before w × Encrypted len tfm s start v len (lib.local_memory w)

  On : (Memory → Memory → Type 0) → lib.World → Type 0
  On Q w = Q (lib.local_memory w) (lib.peer_memory w)

  read_step :
      (n : ℕ) (w : lib.World) (Q : Memory → Memory → Type 0)
      → ((card : Memory)
          → IsCopied (lib.local_memory w) (lib.peer_memory w) card s.ptr s.remote_ptr n
          → Q card (lib.peer_memory w))
      → Post lib
          (Failure lib)
          (λ w'. Q (lib.local_memory w') (lib.peer_memory w'))
          (check (lib.scif_readfrom s.endpoint s.ptr n s.remote_ptr) w)
  read_step n w Q h =
      check_rule lib (Failure lib) (λ w'. Q (lib.local_memory w') (lib.peer_memory w'))
        (lib.scif_readfrom s.endpoint s.ptr n s.remote_ptr) w
        (λ ok. rw (doc.readfrom_peer s.endpoint s.ptr n s.remote_ptr w) (
          h (lib.local_memory (lib.scif_readfrom s.endpoint s.ptr n s.remote_ptr w).1)
            (doc.readfrom_local s.endpoint s.ptr n s.remote_ptr w ok)))
        (read_failed s.endpoint s.ptr n s.remote_ptr w)

  write_step :
      (sent n : ℕ) (w : lib.World) (Q : Memory → Memory → Type 0)
      → ((host : Memory)
          → IsCopied (lib.peer_memory w) (lib.local_memory w) host s.return_ptr sent n
          → Q (lib.local_memory w) host)
      → Post lib
          (Failure lib)
          (λ w'. Q (lib.local_memory w') (lib.peer_memory w'))
          (check (lib.scif_writeto s.endpoint sent n s.return_ptr) w)
  write_step sent n w Q h =
      check_rule lib (Failure lib) (λ w'. Q (lib.local_memory w') (lib.peer_memory w'))
        (lib.scif_writeto s.endpoint sent n s.return_ptr) w
        (λ ok. rw (doc.writeto_local s.endpoint sent n s.return_ptr w) (
          h (lib.peer_memory (lib.scif_writeto s.endpoint sent n s.return_ptr w).1)
            (doc.writeto_peer s.endpoint sent n s.return_ptr w ok)))
        (write_failed s.endpoint sent n s.return_ptr w)

  -- a transfer, a loop and a transfer
  abbrev three : ℕ → ℕ → (ℕ → Memory → Memory) → M lib.World (Unit {0})
  three sent n body =
      check (lib.scif_readfrom s.endpoint s.ptr n s.remote_ptr)
      >> (run n body >> check (lib.scif_writeto s.endpoint sent n s.return_ptr))

  three_steps :
      (sent n : ℕ) (body : ℕ → Memory → Memory) (w : lib.World) (P Q R : Memory → Memory → Type 0)
      → n % 16 ≡ 0
      → ((card : Memory)
          → IsCopied (lib.local_memory w) (lib.peer_memory w) card s.ptr s.remote_ptr n
          → P card (lib.peer_memory w))
      → ((card host : Memory) (order : List ℕ)
          → IsOrder n order
          → P card host
          → Q (parallel_for order body card) host)
      → ((card host host' : Memory)
          → IsCopied host card host' s.return_ptr sent n
          → Q card host
          → R card host')
      → Post lib (Failure lib) (On R) (three sent n body w)
  unfolding On
  three_steps sent n body w P Q R whole read crypt write =
      then_rule lib (Failure lib) (On P) (On R)
        (check (lib.scif_readfrom s.endpoint s.ptr n s.remote_ptr))
        (run n body >> check (lib.scif_writeto s.endpoint sent n s.return_ptr)) w
        (read_step n w P read)
        λ w1 p.
          then_rule lib (Failure lib) (On Q) (On R) (run n body)
            (check (lib.scif_writeto s.endpoint sent n s.return_ptr)) w1
            (loop n body w1 Q whole
              (λ order ord. crypt (lib.local_memory w1) (lib.peer_memory w1) order ord p))
            λ w2 q.
              write_step sent n w2 R
                (λ host c. write (lib.local_memory w2) (lib.peer_memory w2) host c q)

  pub encrypt_pass_step :
      (sent n : ℕ) (w : lib.World)
      → IsSize len n
      → Before w
      → Post lib
          (Failure lib)
          (λ w'. Before w' × Encrypted len tfm s start v n (lib.local_memory w'))
          (encrypt_pass lib run tfm s sent n w)
  unfolding encrypt_pass On
  encrypt_pass_step sent n w (whole, le) before =
      three_steps sent n (encrypt_round tfm s.tempbuffer s.ptr) w
        (λ card host. Kept len tfm s start v card host × Loaded len tfm s start v n card)
        (λ card host. Kept len tfm s start v card host × Encrypted len tfm s start v n card)
        (λ card host. Kept len tfm s start v card host × Encrypted len tfm s start v n card) whole
        (λ card c.
          (read_Kept len tfm s start v n le before c, read_Loaded len tfm s start v n le before c))
        (λ card host order ord p. (
          (encrypt_IsBytes len tfm s start v n order card whole le p.0.0, p.0.1),
          encrypt_Encrypted len tfm s start v n order card whole le ord p.0.0 p.1,
        ))
        (λ card host host' c q. (write_Kept len tfm s start v sent n le q.0 c, q.1))

  pub decrypt_pass_step :
      (n : ℕ) (w : lib.World)
      → IsSize len n
      → Halfway w
      → Post lib
          (Failure lib)
          (λ w'. Halfway w' × Returned len tfm s start v n (lib.peer_memory w'))
          (decrypt_pass lib run tfm s n w)
  unfolding decrypt_pass On
  decrypt_pass_step n w (whole, le) (before, done) =
      three_steps s.outbuffer n (decrypt_round tfm s.outbuffer s.tempbuffer) w
        (λ card host. Kept len tfm s start v card host × Encrypted len tfm s start v len card)
        (λ card host.
          (Kept len tfm s start v card host × Encrypted len tfm s start v len card)
          × Decrypted len tfm s start v n card)
        (λ card host.
          (Kept len tfm s start v card host × Encrypted len tfm s start v len card)
          × Returned len tfm s start v n host)
        whole
        (λ card c.
          (read_Kept len tfm s start v n le before c, read_Encrypted len tfm s start v n le done c))
        (λ card host order ord p. (
          (
            (decrypt_IsBytes len tfm s start v n order card whole le p.0.0, p.0.1),
            decrypt_Encrypted len tfm s start v n order card whole le ord p.1,
          ),
          decrypt_Decrypted len tfm s start v n order card whole le ord p.0.0 p.1,
        ))
        (λ card host host' c q. (
          (write_Kept len tfm s start v s.outbuffer n le q.0.0 c, q.0.1),
          write_Returned len tfm s start v n q.1 c,
        ))

  -- a loop over sizes of either kind
  pub encrypt_loop :
      (sent times n : ℕ) (ns : List ℕ) (w : lib.World)
      → All (IsSize len) (n ∷ ns)
      → Before w
      → Post lib
          (Failure lib)
          (λ w'. Before w' × Encrypted len tfm s start v (last n ns) (lib.local_memory w'))
          (for_sizes (suc times) (n ∷ ns) (encrypt_pass lib run tfm s sent) w)
  encrypt_loop sent times n ns w sizes before =
      for_sizes_rule lib (Failure lib) times (IsSize len) Before
        (λ m w'. Encrypted len tfm s start v m (lib.local_memory w'))
        (encrypt_pass lib run tfm s sent) (encrypt_pass_step sent) n ns w sizes before

  pub decrypt_loop :
      (times n : ℕ) (ns : List ℕ) (w : lib.World)
      → All (IsSize len) (n ∷ ns)
      → Halfway w
      → Post lib
          (Failure lib)
          (λ w'. Halfway w' × Returned len tfm s start v (last n ns) (lib.peer_memory w'))
          (for_sizes (suc times) (n ∷ ns) (decrypt_pass lib run tfm s) w)
  decrypt_loop times n ns w sizes half =
      for_sizes_rule lib (Failure lib) times (IsSize len) Halfway
        (λ m w'. Returned len tfm s start v m (lib.peer_memory w')) (decrypt_pass lib run tfm s)
        decrypt_pass_step n ns w sizes half

-- Between the worlds `w` and `w'` the host got back at `return_ptr` what stood at `remote_ptr`, which
-- was left alone.
abbrev pub IsBack : (lib : Scif) → ℕ → Session → lib.World → lib.World → Type 0
IsBack lib len s w w' =
    (i : ℕ)
    → i < len
    → (lib.peer_memory w' (s.return_ptr + i) ≡ lib.peer_memory w (s.remote_ptr + i))
      × (lib.peer_memory w' (s.remote_ptr + i) ≡ lib.peer_memory w (s.remote_ptr + i))

pub outcome :
    (lib : Scif) (Q : lib.World → Type 0) (o : Exit (Unit {0}) × lib.World)
    → Post lib (Failure lib) Q o
    → ((o.0 ≡ value tt) × Q o.1) ⊎ ((o.0 ≡ returned 1) × Failure lib o.1)
outcome lib Q (value tt, w) q = inl (refl, q)
outcome lib Q (returned c, w) (e, f) = inr (ap returned e, f)

-- Both loops, one after the other.
pub both_loops-IsBack :
    (lib : Scif) (doc : IsDocumented lib) (len n : ℕ) (ns : List ℕ) (tfm : CryptoTfm) (s : Session)
    (sent : ℕ) (w : lib.World)
    → IsSetting len tfm s (lib.peer_memory w)
    → IsBytes (lib.local_memory w)
    → All (IsSize len) (n ∷ ns)
    → last n ns ≡ len
    → Post lib (Failure lib) (IsBack lib len s w) (both_loops lib (n ∷ ns) tfm s sent w)
unfolding both_loops
both_loops-IsBack lib doc len n ns tfm s sent w v local sizes whole =
    weaken lib _ (IsBack lib len s w) (both_loops lib (n ∷ ns) tfm s sent w)
      (λ w' q i p. (q.1 i (omega arith), q.0.0.1 i p))
      (then_rule lib (Failure lib)
        (λ w'.
          Kept len tfm s start v (lib.local_memory w') (lib.peer_memory w')
          × Encrypted len tfm s start v (last n ns) (lib.local_memory w'))
        (λ w'.
          Halfway lib doc (compute lib) loop len tfm s start v w'
          × Returned len tfm s start v (last n ns) (lib.peer_memory w'))
        (for_sizes 15 (n ∷ ns) (encrypt_pass lib (compute lib) tfm s sent))
        (for_sizes 15 (n ∷ ns) (decrypt_pass lib (compute lib) tfm s)) w
        (encrypt_loop lib doc (compute lib) loop len tfm s start v sent 14 n ns w sizes
          (local, λ i p. refl))
        λ w' q.
          decrypt_loop lib doc (compute lib) loop len tfm s start v 14 n ns w' sizes
            (q.0, rw (← whole) q.1))
  where
    start : Memory
    start = lib.peer_memory w

    loop : IsLoop lib (Failure lib) (compute lib)
    loop = compute_rule lib (Failure lib) doc
