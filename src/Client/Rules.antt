-- ===== src/Client/Rules.antt =====
-- Rules for the steps that the programs are made of.
use xeon_phi_kernel_integrat.Base.{
  ℕ, ◌*◌, ◌/◌, ◌%◌, ◌<◌, zero, suc, List, [], ◌∷◌, ◌++◌, Bool, true, false, ◌≡◌, ◌≢◌, ◌⊎◌, inl, inr,
  refl, arith,
}
use native.Mathlib.Decide.{ℕ_discrete}
use mathlib.Core.Option.{none}
use xeon_phi_kernel_integrat.Memory.{Memory, parallel_for}
use xeon_phi_kernel_integrat.Memory.Loop.{Among, IsOrder}
use xeon_phi_kernel_integrat.Client.Library.{Scif, IsDocumented, done}
use xeon_phi_kernel_integrat.Client.Step.{
  Exit, value, returned, M, ◌>>◌, check, effect, compute, compute_in_order, in_order, repeat,
  for_sizes,
}

-- `P` at every entry of a list.
abbrev pub All : (ℕ → Type 0) → List ℕ → Type 0
All P [] = Unit {0}
All P (n ∷ ns) = P n × All P ns

-- the last entry of `n ∷ ns`
abbrev pub last : ℕ → List ℕ → ℕ
last n [] = n
last n (n' ∷ ns) = last n' ns

Among-append : (k x : ℕ) (xs : List ℕ) → Among k (xs ++ (x ∷ [])) → Among k xs ⊎ (k ≡ x)
Among-append k x [] (inl e) = inr e
Among-append k x [] (inr p) = absurd p
Among-append k x (y ∷ xs) (inl e) = inl (inl e)
Among-append k x (y ∷ xs) (inr p) = elim (Among-append k x xs p) [
  | inl q ↦ inl (inr q)
  | inr e ↦ inr e
]

Among-front : (k x : ℕ) (xs : List ℕ) → Among k xs → Among k (xs ++ (x ∷ []))
Among-front k x (y ∷ xs) (inl e) = inl e
Among-front k x (y ∷ xs) (inr p) = inr (Among-front k x xs p)
Among-front k x [] p = absurd p

Among-back : (k x : ℕ) (xs : List ℕ) → k ≡ x → Among k (xs ++ (x ∷ []))
Among-back k x [] e = inl e
Among-back k x (y ∷ xs) e = inr (Among-back k x xs e)

in_order_only : (b k : ℕ) → Among k (in_order b) → (k % 16 ≡ 0) × (k < 16 * b)
unfolding in_order
in_order_only zero k p = absurd p
in_order_only (suc b) k p = elim (Among-append k (16 * b) (in_order b) p) [
  | inl q ↦ omega (arith, in_order_only b k q)
  | inr e ↦ omega arith
]

in_order_every : (b k : ℕ) → k % 16 ≡ 0 → k < 16 * b → Among k (in_order b)
unfolding in_order
in_order_every zero k mul lt = absurd (omega arith)
in_order_every (suc b) k mul lt = elim (ℕ_discrete k (16 * b)) [
  | yes e ↦ Among-back k (16 * b) (in_order b) e
  | no ne ↦ Among-front k (16 * b) (in_order b) (in_order_every b k mul (omega arith))
]

-- A loop that makes its rounds from the first to the last makes each of them.
pub in_order-IsOrder : (n : ℕ) → n % 16 ≡ 0 → IsOrder n (in_order (n / 16))
in_order-IsOrder n whole = record {
  only = λ k p. omega (arith, in_order_only (n / 16) k p);
  every = λ k mul lt. in_order_every (n / 16) k mul (omega arith);
}

module _ (lib : Scif) where
  -- The states of the world that a call leaves which the library reports as failed.
  pub data Failure : lib.World → Type 0 where
    open_failed : (w : lib.World) → (lib.scif_open w).0 ≡ none → Failure (lib.scif_open w).1
    bind_failed :
        (e p : ℕ) (w : lib.World)
        → (lib.scif_bind e p w).0 ≡ false
        → Failure (lib.scif_bind e p w).1
    listen_failed :
        (e n : ℕ) (w : lib.World)
        → (lib.scif_listen e n w).0 ≡ false
        → Failure (lib.scif_listen e n w).1
    connect_failed :
        (e n p : ℕ) (w : lib.World)
        → (lib.scif_connect e n p w).0 ≡ false
        → Failure (lib.scif_connect e n p w).1
    memalign_failed :
        (a n : ℕ) (w : lib.World)
        → (lib.posix_memalign a n w).0 ≡ none
        → Failure (lib.posix_memalign a n w).1
    register_failed :
        (e a n o : ℕ) (w : lib.World)
        → (lib.scif_register e a n o w).0 ≡ false
        → Failure (lib.scif_register e a n o w).1
    recv_failed :
        (e : ℕ) (w : lib.World) → (lib.scif_recv e w).0 ≡ none → Failure (lib.scif_recv e w).1
    recv_at_failed :
        (e a n : ℕ) (w : lib.World)
        → (lib.scif_recv_at e a n w).0 ≡ false
        → Failure (lib.scif_recv_at e a n w).1
    send_failed :
        (e a : ℕ) (w : lib.World)
        → (lib.scif_send e a w).0 ≡ false
        → Failure (lib.scif_send e a w).1
    unregister_failed :
        (e a n : ℕ) (w : lib.World)
        → (lib.scif_unregister e a n w).0 ≢ done
        → Failure (lib.scif_unregister e a n w).1
    read_failed :
        (e to n from : ℕ) (w : lib.World)
        → (lib.scif_readfrom e to n from w).0 ≡ false
        → Failure (lib.scif_readfrom e to n from w).1
    write_failed :
        (e from n to : ℕ) (w : lib.World)
        → (lib.scif_writeto e from n to w).0 ≡ false
        → Failure (lib.scif_writeto e from n to w).1

-- A program that stops early only where `Fail` holds.
module _ (lib : Scif) (Fail : lib.World → Type 0) where
  -- A part of `main` that goes on has made `Q` hold; one that returns gives 1, after a failure.
  abbrev pub Post : (lib.World → Type 0) → Exit (Unit {0}) × lib.World → Type 0
  Post Q (value _, w) = Q w
  Post Q (returned c, w) = (c ≡ 1) × Fail w

  after :
      (Q R : lib.World → Type 0) (k : M lib.World (Unit {0})) (o : Exit (Unit {0}) × lib.World)
      → Post Q o
      → ((w : lib.World) → Q w → Post R (k w))
      → Post R (let (r, w') = o in elim r [ value _ ↦ k w' | returned c ↦ (returned c, w') ])
  after Q R k (value _, w) q h = h w q
  after Q R k (returned c, w) q h = q

  pub then_rule :
      (Q R : lib.World → Type 0) (m k : M lib.World (Unit {0})) (w : lib.World)
      → Post Q (m w)
      → ((w' : lib.World) → Q w' → Post R (k w'))
      → Post R ((m >> k) w)
  then_rule Q R m k w q h = after Q R k (m w) q h

  checked :
      (Q : lib.World → Type 0) (o : Bool × lib.World)
      → (o.0 ≡ true → Q o.1)
      → (o.0 ≡ false → Fail o.1)
      → Post Q (let (ok, w') = o in elim ok [ true ↦ (value tt, w') | false ↦ (returned 1, w') ])
  checked Q (true, w) q f = q refl
  checked Q (false, w) q f = (refl, f refl)

  pub check_rule :
      (Q : lib.World → Type 0) (call : lib.World → Bool × lib.World) (w : lib.World)
      → ((call w).0 ≡ true → Q (call w).1)
      → ((call w).0 ≡ false → Fail (call w).1)
      → Post Q (check call w)
  unfolding check
  check_rule Q call w q f = checked Q (call w) q f

  -- `run` makes the rounds of a loop on the program's own memory, each at least once.
  abbrev pub IsLoop : (ℕ → (ℕ → Memory → Memory) → M lib.World (Unit {0})) → Type 1
  IsLoop run =
      (n : ℕ) (body : ℕ → Memory → Memory) (w : lib.World) (Q : Memory → Memory → Type 0)
      → n % 16 ≡ 0
      → ((order : List ℕ)
          → IsOrder n order
          → Q (parallel_for order body (lib.local_memory w)) (lib.peer_memory w))
      → Post (λ w'. Q (lib.local_memory w') (lib.peer_memory w')) (run n body w)

  -- A parallel loop changes the card's memory alone, in some order of its rounds.
  pub compute_rule : IsDocumented lib → IsLoop (compute lib)
  unfolding compute effect
  compute_rule doc n body w Q whole h =
      rw
        (
          doc.local_written (parallel_for (lib.loop_order n w) body (lib.local_memory w)) w,
          doc.peer_kept (parallel_for (lib.loop_order n w) body (lib.local_memory w)) w,
        )
        (h (lib.loop_order n w) (doc.rounds n w whole))

  -- A condition that each round keeps, and that the last round strengthens.
  pub repeat_rule :
      (P Q : lib.World → Type 0) (body : M lib.World (Unit {0}))
      → ((w : lib.World) → P w → Post (λ w'. P w' × Q w') (body w))
      → (n : ℕ) (w : lib.World) → P w
      → Post (λ w'. P w' × Q w') (repeat (suc n) body w)
  unfolding repeat effect
  repeat_rule P Q body h zero w p =
      then_rule (λ w'. P w' × Q w') (λ w'. P w' × Q w') body (λ w'. (value tt, w')) w (h w p)
        (λ w' q. q)
  repeat_rule P Q body h (suc n) w p =
      then_rule (λ w'. P w' × Q w') (λ w'. P w' × Q w') body (repeat (suc n) body) w (h w p)
        (λ w' q. repeat_rule P Q body h n w' q.0)

  -- the same for the loop over the sizes, whose last size is the one that counts
  pub for_sizes_rule :
      (times : ℕ) (ok : ℕ → Type 0) (P : lib.World → Type 0) (Q : ℕ → lib.World → Type 0)
      (pass : ℕ → M lib.World (Unit {0}))
      → ((n : ℕ) (w : lib.World) → ok n → P w → Post (λ w'. P w' × Q n w') (pass n w))
      → (n : ℕ) (ns : List ℕ) (w : lib.World) → All ok (n ∷ ns)
      → P w
      → Post (λ w'. P w' × Q (last n ns) w') (for_sizes (suc times) (n ∷ ns) pass w)
  unfolding for_sizes effect
  for_sizes_rule times ok P Q pass h n [] w (a, all) p =
      then_rule (λ w'. P w' × Q n w') (λ w'. P w' × Q n w') (repeat (suc times) (pass n))
        (λ w'. (value tt, w')) w (repeat_rule P (Q n) (pass n) (λ w' p'. h n w' a p') times w p)
        (λ w' q. q)
  for_sizes_rule times ok P Q pass h n (n' ∷ ns) w (a, all) p =
      then_rule (λ w'. P w' × Q n w') (λ w'. P w' × Q (last n' ns) w') (repeat (suc times) (pass n))
        (for_sizes (suc times) (n' ∷ ns) pass) w
        (repeat_rule P (Q n) (pass n) (λ w' p'. h n w' a p') times w p)
        (λ w' q. for_sizes_rule times ok P Q pass h n' ns w' all q.0)

  -- The rounds of a loop with no `#pragma` before it.
  pub compute_in_order_rule : IsDocumented lib → IsLoop (compute_in_order lib)
  unfolding compute_in_order effect
  compute_in_order_rule doc n body w Q whole h =
      rw
        (
          doc.local_written (parallel_for (in_order (n / 16)) body (lib.local_memory w)) w,
          doc.peer_kept (parallel_for (in_order (n / 16)) body (lib.local_memory w)) w,
        )
        (h (in_order (n / 16)) (in_order-IsOrder n whole))

pub weaken :
    (lib : Scif) (P Q : lib.World → Type 0) (o : Exit (Unit {0}) × lib.World)
    → ((w : lib.World) → P w → Q w)
    → Post lib (Failure lib) P o
    → Post lib (Failure lib) Q o
weaken lib P Q (value tt, w) h p = h w p
weaken lib P Q (returned c, w) h p = p
