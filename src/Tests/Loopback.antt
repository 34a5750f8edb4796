-- ===== src/Tests/Loopback.antt =====
-- A SCIF library whose calls all succeed, over two memories, with an allocator that hands out one
-- address after the other, and an OpenMP runtime that makes the rounds of a loop from the last to
-- the first. It keeps to `IsDocumented`.
use native.Mathlib.Decide.{ℕ_discrete}
use xeon_phi_kernel_integrat.Base.{
  ℕ, zero, suc, ◌+◌, ◌-◌, ◌*◌, ◌/◌, ◌%◌, ◌<◌, List, [], ◌∷◌, ◌≡◌, inl, inr, refl, true, ltb,
  if◌then◌else◌, ap, arith,
}
use mathlib.Core.Option.{some}
use xeon_phi_kernel_integrat.Memory.{Memory}
use xeon_phi_kernel_integrat.Memory.Loop.{Among, IsOrder}
use xeon_phi_kernel_integrat.Client.Library.{Scif, IsDocumented, IsCopied, done}

pub record TwoMemories : Type 0 where
  pub card : Memory
  pub host : Memory
  pub next : ℕ

unfoldable pub copy : Memory → Memory → ℕ → ℕ → ℕ → Memory
copy target source to from n x =
    if ltb x to then target x else if ltb x (to + n) then source (from + (x - to)) else target x

unfoldable pub backwards : ℕ → List ℕ
backwards zero = []
backwards (suc k) = 16 * k ∷ backwards k

pub copy-IsCopied :
    (target source : Memory) (to from n : ℕ)
    → IsCopied target source (copy target source to from n) to from n
unfolding copy
copy-IsCopied target source to from n = record {
  copied = λ i p. ground (arith, ap source {x = from + (to + i - to)} {y = from + i} (omega arith));
  others = λ x h. ground arith;
}

backwards_only : (b k : ℕ) → Among k (backwards b) → (k % 16 ≡ 0) × (k < 16 * b)
unfolding backwards
backwards_only zero k p = absurd p
backwards_only (suc b) k (inl e) = (omega arith, omega arith)
backwards_only (suc b) k (inr p) = omega (arith, backwards_only b k p)

backwards_every : (b k : ℕ) → k % 16 ≡ 0 → k < 16 * b → Among k (backwards b)
unfolding backwards
backwards_every zero k mul lt = absurd (omega arith)
backwards_every (suc b) k mul lt = elim (ℕ_discrete k (16 * b)) [
  | yes e ↦ inl e
  | no ne ↦ inr (backwards_every b k mul (omega arith))
]

pub backwards-IsOrder : (n : ℕ) → n % 16 ≡ 0 → IsOrder n (backwards (n / 16))
backwards-IsOrder n whole = record {
  only = λ k p. omega (arith, backwards_only (n / 16) k p);
  every = λ k mul lt. backwards_every (n / 16) k mul (omega arith);
}

abbrev pub loopback : Scif
loopback = record {
  World = TwoMemories;
  local_memory = λ w. w.card;
  peer_memory = λ w. w.host;
  write_local = λ m w. record w { card = m };
  scif_open = λ w. (some 3, w);
  scif_bind = λ e port w. (true, w);
  scif_listen = λ e n w. (true, w);
  scif_accept = λ e w. (4, w);
  scif_connect = λ e node port w. (true, w);
  posix_memalign = λ a n w. (some w.next, record w { next = w.next + n });
  malloc = λ n w. (w.next, record w { next = w.next + n });
  free = λ a w. w;
  scif_register = λ e a n o w. (true, w);
  scif_recv = λ e w. (some w.next, record w { next = w.next + 1073741824 });
  scif_recv_at = λ e a n w. (true, w);
  scif_recv_count = λ e a n w. (some n, w);
  scif_send_count = λ e a n w. (some n, w);
  scif_send = λ e a w. (true, w);
  scif_readfrom = λ e to n from w. (true, record w { card = copy w.card w.host to from n });
  scif_writeto = λ e from n to w. (true, record w { host = copy w.host w.card to from n });
  scif_unregister = λ e a n w. (done, w);
  scif_close = λ e w. w;
  sleep = λ n w. w;
  rand = λ w. (w.next, record w { next = 1103515245 * w.next + 12345 });
  loop_order = λ n w. backwards (n / 16);
}

pub loopback-IsDocumented : IsDocumented loopback
loopback-IsDocumented = record {
  local_written = λ m w. refl;
  peer_kept = λ m w. refl;
  readfrom_local = λ e to n from w ok. copy-IsCopied w.card w.host to from n;
  readfrom_peer = λ e to n from w. refl;
  writeto_peer = λ e from n to w ok. copy-IsCopied w.host w.card to from n;
  writeto_local = λ e from n to w. refl;
  rounds = λ n w whole. backwards-IsOrder n whole;
  rand_local = λ w. refl;
  unregister_local = λ e a n w. refl;
  recv_at_local = λ e a n w x h. refl;
  close_local = λ e w. refl;
}
