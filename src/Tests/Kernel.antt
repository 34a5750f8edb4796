-- ===== src/Tests/Kernel.antt =====
-- A kernel with two endpoints, whose heap is a function.
use xeon_phi_kernel_integrat.Base.{
  ℕ, zero, suc, ◌+◌, ◌*◌, ◌<◌, Bool, true, false, ◌==◌, ◌||◌, if◌then◌else◌, ◌≡◌, ◌≢◌, ◌⊎◌, inl,
  inr, refl, arith,
}
use xeon_phi_kernel_integrat.Module.Start.{Kernel}
use xeon_phi_kernel_integrat.Module.Heap.{IsHeap}
use xeon_phi_kernel_integrat.Module.Scif.{IsScif}
use xeon_phi_kernel_integrat.Tests.Buffers.{counting}

-- the buffers held, by address, how many have been handed out, and which of the two endpoints are open
pub record Heap : Type 0 where
  pub in_use : ℕ → Bool
  pub handed_out : ℕ
  pub listening : Bool
  pub connected : Bool

-- The calls give the addresses 4096, 8192 and so on, where these are free, and a null pointer
-- elsewhere.
abbrev pub hand_out : ℕ → Bool → Heap → ℕ × Heap
hand_out a true w = (0, w)
hand_out a false w =
    (a, record w { in_use = λ x. (x == a) || w.in_use x; handed_out = w.handed_out + 1 })

abbrev pub take : Heap → ℕ × Heap
take w = let a = 4096 * (w.handed_out + 1) in hand_out a (w.in_use a) w

abbrev pub give_back : ℕ → Heap → Heap
give_back zero w = w
give_back (suc a) w = record w { in_use = λ x. if x == suc a then false else w.in_use x }

handed :
    (a : ℕ) (used : Bool) (w : Heap)
    → 0 < a
    → w.in_use a ≡ used
    → let (r, w') = hand_out a used w in
      ((r ≡ 0) × (w'.in_use ≡ w.in_use))
      ⊎ ((0 < r) × (w.in_use r ≡ false) × ((x : ℕ) → w'.in_use x ≡ ((x == r) || w.in_use x)))
handed a true w pos e = inl (refl, refl)
handed a false w pos e = inr (pos, e, (λ x. refl))

given :
    (a : ℕ) (w : Heap) (x : ℕ)
    → 0 < a
    → (give_back a w).in_use x ≡ (if x == a then false else w.in_use x)
given zero w x pos = absurd (omega arith)
given (suc a) w x pos = refl

-- The endpoint 3 listens, and 4 is accepted.
abbrev pub open_first : Bool → Heap → ℕ × Heap
open_first true w = (0, w)
open_first false w = (3, record w { listening = true })

abbrev pub accept_second : Bool → Heap → (ℕ × ℕ) × Heap
accept_second true w = ((1, 0), w)
accept_second false w = ((0, 4), record w { connected = true })

abbrev pub close_first : ℕ → Heap → Heap
close_first e w = record w {
  listening = if e == 3 then false else w.listening;
  connected = if e == 4 then false else w.connected;
}

abbrev pub is_open : Heap → ℕ → Bool
is_open w x = if x == 3 then w.listening else if x == 4 then w.connected else false

abbrev pub toy : Kernel
toy = record {
  World = Heap;
  memory = λ w. counting;
  scif_open = λ w. open_first w.listening w;
  scif_bind = λ e p w. (p, w);
  scif_listen = λ e n w. (0, w);
  scif_accept = λ e w. accept_second w.connected w;
  vmalloc = λ n. take;
  kmalloc = λ n. take;
  get_random_bytes = λ a n w. w;
  scif_register = λ e a n o w. (o, w);
  scif_send = λ e v w. (8, w);
  scif_recv = λ e w. ((8, 81920), w);
  scif_send_from = λ e a n w. w;
  scif_recv_into = λ e a n w. w;
  scif_unregister = λ e o n w. w;
  vfree = give_back;
  kfree = give_back;
  scif_close = close_first;
}

open-in_use : (b : Bool) (w : Heap) → (open_first b w).1.in_use ≡ w.in_use
open-in_use true w = refl
open-in_use false w = refl

accept-in_use : (b : Bool) (w : Heap) → (accept_second b w).1.in_use ≡ w.in_use
accept-in_use true w = refl
accept-in_use false w = refl

pub toy-IsHeap : IsHeap toy toy.vmalloc toy.vfree
toy-IsHeap = record {
  owns = λ w. w.in_use;
  allocated = λ n w.
      handed (4096 * (w.handed_out + 1)) (w.in_use (4096 * (w.handed_out + 1))) w (omega arith)
        refl;
  freed = λ a w pos held x. given a w x pos;
  freed_null = λ w. refl;
  open_kept = λ w. open-in_use w.listening w;
  bind_kept = λ e p w. refl;
  listen_kept = λ e n w. refl;
  accept_kept = λ e w. accept-in_use w.connected w;
  random_kept = λ a n w. refl;
  register_kept = λ e a n o w. refl;
  send_kept = λ e v w. refl;
  recv_kept = λ e w. refl;
  send_from_kept = λ e a n w. refl;
  recv_into_kept = λ e a n w. refl;
  unregister_kept = λ e o n w. refl;
  close_kept = λ e w. refl;
}

pub toy_kmalloc-IsHeap : IsHeap toy toy.kmalloc toy.kfree
toy_kmalloc-IsHeap = record {
  owns = λ w. w.in_use;
  allocated = λ n w.
      handed (4096 * (w.handed_out + 1)) (w.in_use (4096 * (w.handed_out + 1))) w (omega arith)
        refl;
  freed = λ a w pos held x. given a w x pos;
  freed_null = λ w. refl;
  open_kept = λ w. open-in_use w.listening w;
  bind_kept = λ e p w. refl;
  listen_kept = λ e n w. refl;
  accept_kept = λ e w. accept-in_use w.connected w;
  random_kept = λ a n w. refl;
  register_kept = λ e a n o w. refl;
  send_kept = λ e v w. refl;
  recv_kept = λ e w. refl;
  send_from_kept = λ e a n w. refl;
  recv_into_kept = λ e a n w. refl;
  unregister_kept = λ e o n w. refl;
  close_kept = λ e w. refl;
}

null_is_closed : (w : Heap) → is_open w 0 ≡ false
null_is_closed w = refl

opened_first :
    (b : Bool) (w : Heap)
    → w.listening ≡ b
    → let (e, w') = open_first b w in
      ((e ≡ 0) × (is_open w' ≡ is_open w))
      ⊎ ((is_open w e ≡ false) × ((x : ℕ) → is_open w' x ≡ ((x == e) || is_open w x)))
opened_first true w e = inl (refl, refl)
opened_first false w e = inr (e, (λ x. ground arith))

accepted_second :
    (b : Bool) (w : Heap)
    → w.connected ≡ b
    → let ((c, r), w') = accept_second b w in
      ((c ≢ 0) × (is_open w' ≡ is_open w))
      ⊎ ((c ≡ 0) × (is_open w r ≡ false) × ((x : ℕ) → is_open w' x ≡ ((x == r) || is_open w x)))
accepted_second true w e = inl ((λ q. omega (arith, q)), refl)
accepted_second false w e = inr (refl, e, (λ x. ground arith))

closed_first :
    (e : ℕ) (w : Heap) (x : ℕ)
    → is_open (close_first e w) x ≡ (if x == e then false else is_open w x)
closed_first e w x = ground arith

hand_out-is_open : (a : ℕ) (b : Bool) (w : Heap) → is_open (hand_out a b w).1 ≡ is_open w
hand_out-is_open a true w = refl
hand_out-is_open a false w = refl

give_back-is_open : (a : ℕ) (w : Heap) → is_open (give_back a w) ≡ is_open w
give_back-is_open zero w = refl
give_back-is_open (suc a) w = refl

take-is_open : (w : Heap) → is_open (take w).1 ≡ is_open w
take-is_open w =
    hand_out-is_open (4096 * (w.handed_out + 1)) (w.in_use (4096 * (w.handed_out + 1))) w

pub toy-IsScif : IsScif toy
toy-IsScif = record {
  is_open = is_open;
  null_closed = λ w. null_is_closed w;
  opened = λ w. opened_first w.listening w refl;
  accepted = λ e w. accepted_second w.connected w refl;
  closed = closed_first;
  bind_kept = λ e p w. refl;
  listen_kept = λ e n w. refl;
  vmalloc_kept = λ n. take-is_open;
  kmalloc_kept = λ n. take-is_open;
  vfree_kept = give_back-is_open;
  kfree_kept = give_back-is_open;
  random_kept = λ a n w. refl;
  register_kept = λ e a n o w. refl;
  send_kept = λ e v w. refl;
  recv_kept = λ e w. refl;
  send_from_kept = λ e a n w. refl;
  recv_into_kept = λ e a n w. refl;
  unregister_kept = λ e o n w. refl;
}

abbrev pub unused : Heap
unused = record { in_use = λ x. false; handed_out = 0; listening = false; connected = false }
