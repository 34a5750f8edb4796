-- ===== src/Client/TransferLaws.antt =====
-- Loops of transfers: what the host's memory holds after them.
use native.Mathlib.Decide.{dec_lt}
use mathlib.Core.Path.{subst}
use xeon_phi_kernel_integrat.Base.{
  ◌-◌, inl, inr, ℕ, ◌+◌, ◌≤◌, ◌<◌, List, ◌∷◌, ◌≡◌, ◌⊎◌, refl, suc, arith, ◌∙◌,
}
use xeon_phi_kernel_integrat.Memory.{Memory}
use xeon_phi_kernel_integrat.Client.Library.{Scif, IsDocumented, IsCopied}
use xeon_phi_kernel_integrat.Client.Step.{◌>>◌, finish, for_sizes, repeat}
use xeon_phi_kernel_integrat.Client.Rules.{
  All, last, Failure, read_failed, write_failed, Post, weaken, then_rule, check_rule,
  for_sizes_rule, repeat_rule,
}
use xeon_phi_kernel_integrat.Client.Safe.{
  IsSafe, IsSafe-bind, IsSafe-then, IsSafe-finish, IsSafe-open_connection, IsSafe-allocate,
  IsSafe-register, IsSafe-recv, IsSafe-clear_buffer,
}
use xeon_phi_kernel_integrat.Client.Transfer.{
  Link, link, link_set_up, link_set_up_return, read_pass, write_pass,
}

-- The peer's memory in the world `w'` is that in `w`, with `n` bytes copied from `remote_ptr` to
-- `target`.
abbrev pub IsMoved : (lib : Scif) → ℕ → Link → ℕ → lib.World → lib.World → Type 0
IsMoved lib n l target w w' =
    IsCopied (lib.peer_memory w) (lib.peer_memory w) (lib.peer_memory w') target l.remote_ptr n

-- Each byte of the peer's memory is in the world `w'` as in `w`.
abbrev pub IsKept : (lib : Scif) → Link → lib.World → lib.World → Type 0
IsKept lib l w w' = (x : ℕ) → lib.peer_memory w' x ≡ lib.peer_memory w x

-- Bytes copied onto themselves are kept.
pub IsMoved-IsKept :
    (lib : Scif) (n : ℕ) (l : Link) (w w' : lib.World)
    → IsMoved lib n l l.remote_ptr w w'
    → IsKept lib l w w'
IsMoved-IsKept lib n l w w' copy x = elim (dec_lt x l.remote_ptr) [
  | yes lt ↦ copy.others x (inl lt)
  | no ge ↦ elim (dec_lt x (l.remote_ptr + n)) [
    | yes in_range ↦
        let at : l.remote_ptr + (x - l.remote_ptr) ≡ x = omega arith in
        subst (λ y. lib.peer_memory w' y ≡ lib.peer_memory w y) at
          (copy.copied (x - l.remote_ptr) (omega arith))
    | no above ↦ copy.others x (inr (omega arith))
  ]
]

module _ (lib : Scif) (doc : IsDocumented lib) (l : Link) (target : ℕ) (start : Memory)
    (all : ℕ) where
  -- The peer's memory is as it was at the start.
  abbrev pub Untouched : lib.World → Type 0
  Untouched w = (x : ℕ) → lib.peer_memory w x ≡ start x

  -- `ptr` holds the first `n` bytes that the peer had at `remote_ptr`.
  abbrev pub Fetched : ℕ → lib.World → Type 0
  Fetched n w = (i : ℕ) → i < n → lib.local_memory w (l.ptr + i) ≡ start (l.remote_ptr + i)

  -- The peer's memory has changed at most in the buffer at `target`.
  abbrev pub Framed : lib.World → Type 0
  Framed w = (x : ℕ) → (x < target) ⊎ (target + all ≤ x) → lib.peer_memory w x ≡ start x

  abbrev pub Delivered : ℕ → lib.World → Type 0
  Delivered n w = (i : ℕ) → i < n → lib.peer_memory w (target + i) ≡ start (l.remote_ptr + i)

  pub read_pass_step :
      (n : ℕ) (w : lib.World)
      → n ≤ all
      → Untouched w
      → Post lib (Failure lib) (λ w'. Untouched w' × Fetched n w') (read_pass lib l n w)
  unfolding read_pass
  read_pass_step n w le same =
      check_rule lib (Failure lib) (λ w'. Untouched w' × Fetched n w')
        (lib.scif_readfrom l.endpoint l.ptr n l.remote_ptr) w
        (λ ok. (
          (λ x. rw (doc.readfrom_peer l.endpoint l.ptr n l.remote_ptr w) (same x)),
          (λ i p.
              (doc.readfrom_local l.endpoint l.ptr n l.remote_ptr w ok).copied i p
              ∙ same (l.remote_ptr + i)),
        ))
        (read_failed l.endpoint l.ptr n l.remote_ptr w)

  abbrev pub Ready : lib.World → Type 0
  Ready w = Fetched all w × Framed w

  pub write_pass_step :
      (n : ℕ) (w : lib.World)
      → n ≤ all
      → Ready w
      → Post lib (Failure lib) (λ w'. Ready w' × Delivered n w') (write_pass lib l target n w)
  unfolding write_pass
  write_pass_step n w le (fetched, framed) =
      check_rule lib (Failure lib) (λ w'. Ready w' × Delivered n w')
        (lib.scif_writeto l.endpoint l.ptr n target) w
        (λ ok.
          let copy = doc.writeto_peer l.endpoint l.ptr n target w ok in
          (
            (
              (λ i p. rw (doc.writeto_local l.endpoint l.ptr n target w) (fetched i p)),
              (λ x h. copy.others x (omega (arith, h)) ∙ framed x h),
            ),
            (λ i p. copy.copied i p ∙ fetched i (omega arith)),
          ))
        (write_failed l.endpoint l.ptr n target w)

pub IsSafe-link_set_up : (lib : Scif) (port len : ℕ) → IsSafe lib (link_set_up lib port len)
unfolding link_set_up
IsSafe-link_set_up lib port len = IsSafe-bind lib _ _ (IsSafe-open_connection lib port) λ e.
    IsSafe-bind lib _ _ (IsSafe-allocate lib len) λ p.
      IsSafe-then lib _ _ (IsSafe-clear_buffer lib len p) (
        IsSafe-then lib _ _ (IsSafe-register lib e p len) (
          IsSafe-bind lib _ (λ r. finish (link e p r)) (IsSafe-recv lib e)
            λ r. IsSafe-finish lib (link e p r)))

pub IsSafe-link_set_up_return :
    (lib : Scif) (port len : ℕ) → IsSafe lib (link_set_up_return lib port len)
unfolding link_set_up_return
IsSafe-link_set_up_return lib port len = IsSafe-bind lib _ _ (IsSafe-open_connection lib port) λ e.
    IsSafe-bind lib _ _ (IsSafe-allocate lib len) λ p.
      IsSafe-then lib _ _ (IsSafe-clear_buffer lib len p) (
        IsSafe-then lib _ _ (IsSafe-register lib e p len) (
          IsSafe-bind lib _ _ (IsSafe-recv lib e) λ r.
            IsSafe-bind lib _ (λ b. finish (link e p r, b)) (IsSafe-recv lib e)
              λ b. IsSafe-finish lib {A = Link × ℕ} (link e p r, b)))

module _ (lib : Scif) (doc : IsDocumented lib) (l : Link) (target : ℕ) (w : lib.World) where
  abbrev Begun : ℕ → ℕ → lib.World → Type 0
  Begun all n w' =
      Untouched lib doc l target (lib.peer_memory w) all w'
      × Fetched lib doc l target (lib.peer_memory w) all n w'

  abbrev Moved : ℕ → ℕ → lib.World → Type 0
  Moved all n w' =
      Ready lib doc l target (lib.peer_memory w) all w'
      × Delivered lib doc l target (lib.peer_memory w) all n w'

  moved : (all : ℕ) (w' : lib.World) → Moved all all w' → IsMoved lib all l target w w'
  moved all w' ((fetched, framed), delivered) = record { copied = delivered; others = framed }

  -- Loops over sizes, of which none is above the last.
  pub sizes-IsMoved :
      (times n : ℕ) (ns : List ℕ)
      → All (λ k. k ≤ last n ns) (n ∷ ns)
      → Post lib (Failure lib) (IsMoved lib (last n ns) l target w) (
          (for_sizes (suc times) (n ∷ ns) (read_pass lib l)
              >> for_sizes (suc times) (n ∷ ns) (write_pass lib l target))
            w)
  sizes-IsMoved times n ns sizes =
      let all = last n ns in
      weaken lib (Moved all all) (IsMoved lib all l target w)
        ((for_sizes (suc times) (n ∷ ns) (read_pass lib l)
            >> for_sizes (suc times) (n ∷ ns) (write_pass lib l target))
          w)
        (moved all)
        (then_rule lib (Failure lib) (Begun all all) (Moved all all)
          (for_sizes (suc times) (n ∷ ns) (read_pass lib l))
          (for_sizes (suc times) (n ∷ ns) (write_pass lib l target)) w
          (for_sizes_rule lib (Failure lib) times (λ k. k ≤ all)
            (Untouched lib doc l target (lib.peer_memory w) all)
            (Fetched lib doc l target (lib.peer_memory w) all) (read_pass lib l)
            (read_pass_step lib doc l target (lib.peer_memory w) all) n ns w sizes (λ x. refl))
          λ w1 q.
            for_sizes_rule lib (Failure lib) times (λ k. k ≤ all)
              (Ready lib doc l target (lib.peer_memory w) all)
              (Delivered lib doc l target (lib.peer_memory w) all) (write_pass lib l target)
              (write_pass_step lib doc l target (lib.peer_memory w) all) n ns w1 sizes
              (q.1, λ x h. q.0 x))

  -- Loops of `times + 1` rounds of one size.
  pub rounds-IsMoved :
      (times n : ℕ)
      → Post lib (Failure lib) (IsMoved lib n l target w) (
          (repeat (suc times) (read_pass lib l n) >> repeat (suc times) (write_pass lib l target n))
            w)
  rounds-IsMoved times n =
      weaken lib (Moved n n) (IsMoved lib n l target w)
        ((repeat (suc times) (read_pass lib l n) >> repeat (suc times) (write_pass lib l target n))
          w)
        (moved n)
        (then_rule lib (Failure lib) (Begun n n) (Moved n n)
          (repeat (suc times) (read_pass lib l n)) (repeat (suc times) (write_pass lib l target n))
          w
          (repeat_rule lib (Failure lib) (Untouched lib doc l target (lib.peer_memory w) n)
            (Fetched lib doc l target (lib.peer_memory w) n n) (read_pass lib l n)
            (λ w' same.
              read_pass_step lib doc l target (lib.peer_memory w) n n w' (omega arith) same)
            times w (λ x. refl))
          λ w1 q.
            repeat_rule lib (Failure lib) (Ready lib doc l target (lib.peer_memory w) n)
              (Delivered lib doc l target (lib.peer_memory w) n n) (write_pass lib l target n)
              (λ w' r. write_pass_step lib doc l target (lib.peer_memory w) n n w' (omega arith) r)
              times w1 (q.1, λ x h. q.0 x))
