-- ===== src/Latency/Phases.antt =====
-- The four phases of a round of latency/sendrecv: the byte is with the host, on its way to the card,
-- with the card, on its way to the host.
use native.Mathlib.Decide.{dec_lt}
use xeon_phi_kernel_integrat.Base.{
  ℕ, suc, ◌+◌, ◌*◌, ◌≤◌, ◌<◌, [], ◌∷◌, ◌≡◌, false, ltb, refl, arith,
}
use mathlib.Core.Option.{none, some}
use xeon_phi_kernel_integrat.Latency.PingPong.{
  Connection, IsOpen, waits, replied, Turn, sending, receiving, Side, side, loops, System, system,
  send, recv, host_turn, card_turn, host_step, card_step,
}

module _ (con : Connection) where
  host_sends :
      (i b : ℕ) (k : Side) (q q' q1 : con.Queue)
      → i < loops
      → con.scif_send b q ≡ replied q1
      → host_step con (system con (side i sending b) k q q')
        ≡ some (system con (side i receiving b) k q1 q')
  unfolding host_step host_turn send
  host_sends i b k q q' q1 lt e = ground arith

  host_receives :
      (i b c : ℕ) (k : Side) (q q' q1 : con.Queue)
      → i < loops
      → con.scif_recv q' ≡ replied (c, q1)
      → host_step con (system con (side i receiving b) k q q')
        ≡ some (system con (side (i + 1) sending c) k q q1)
  unfolding host_step host_turn recv
  host_receives i b c k q q' q1 lt e = ground arith

  host_waits :
      (i b : ℕ) (k : Side) (q q' : con.Queue)
      → i < loops
      → con.scif_recv q' ≡ waits
      → host_step con (system con (side i receiving b) k q q') ≡ none
  unfolding host_step host_turn recv
  host_waits i b k q q' lt e = ground arith

  host_over :
      (i b : ℕ) (t : Turn) (k : Side) (q q' : con.Queue)
      → loops ≤ i
      → host_step con (system con (side i t b) k q q') ≡ none
  unfolding host_step
  host_over i b t k q q' le = let over : ltb i loops ≡ false = ground arith in rw over refl

  card_receives :
      (i b c : ℕ) (h : Side) (q q' q1 : con.Queue)
      → i < loops
      → con.scif_recv q ≡ replied (c, q1)
      → card_step con (system con h (side i receiving b) q q')
        ≡ some (system con h (side i sending c) q1 q')
  unfolding card_step card_turn recv
  card_receives i b c h q q' q1 lt e = ground arith

  card_sends :
      (i b : ℕ) (h : Side) (q q' q1 : con.Queue)
      → i < loops
      → con.scif_send b q' ≡ replied q1
      → card_step con (system con h (side i sending b) q q')
        ≡ some (system con h (side (i + 1) receiving b) q q1)
  unfolding card_step card_turn send
  card_sends i b h q q' q1 lt e = ground arith

  card_waits :
      (i b : ℕ) (h : Side) (q q' : con.Queue)
      → con.scif_recv q ≡ waits
      → card_step con (system con h (side i receiving b) q q') ≡ none
  unfolding card_step card_turn recv
  card_waits i b h q q' e = elim (dec_lt i loops) [
    | yes lt ↦ ground arith
    | no ge ↦ let over : ltb i loops ≡ false = ground arith in rw over refl
  ]

  -- `p` calls have been made, and the byte `b` is where the phase says.
  pub data Phase (op : IsOpen con) (b : ℕ) (s : System con) (p : ℕ) : Type 0 where
    with_host :
        (i c : ℕ) (q q' : con.Queue)
        → p ≡ 4 * i
        → s ≡ system con (side i sending b) (side i receiving c) q q'
        → op.contents q ≡ []
        → op.contents q' ≡ []
        → i ≤ loops
        → (0 < i → c ≡ b)
        → Phase op b s p
    to_the_card :
        (i c : ℕ) (q q' : con.Queue)
        → p ≡ 4 * i + 1
        → s ≡ system con (side i receiving b) (side i receiving c) q q'
        → op.contents q ≡ b ∷ []
        → op.contents q' ≡ []
        → i < loops
        → Phase op b s p
    with_card :
        (i : ℕ) (q q' : con.Queue)
        → p ≡ 4 * i + 2
        → s ≡ system con (side i receiving b) (side i sending b) q q'
        → op.contents q ≡ []
        → op.contents q' ≡ []
        → i < loops
        → Phase op b s p
    to_the_host :
        (i : ℕ) (q q' : con.Queue)
        → p ≡ 4 * i + 3
        → s ≡ system con (side i receiving b) (side (i + 1) receiving b) q q'
        → op.contents q ≡ []
        → op.contents q' ≡ b ∷ []
        → i < loops
        → Phase op b s p

  -- What comes after `p` calls: the end, or a call that only one of the two sides can make.
  pub data After (op : IsOpen con) (b : ℕ) (s : System con) (p : ℕ) : Type 0 where
    over :
        p ≡ 4 * loops
        → host_step con s ≡ none
        → card_step con s ≡ none
        → s.host.round ≡ loops
        → s.card.round ≡ loops
        → s.card.buffer ≡ b
        → After op b s p
    host_next :
        (t : System con)
        → host_step con s ≡ some t
        → card_step con s ≡ none
        → p < 4 * loops
        → Phase op b t (suc p)
        → After op b s p
    card_next :
        (t : System con)
        → card_step con s ≡ some t
        → host_step con s ≡ none
        → p < 4 * loops
        → Phase op b t (suc p)
        → After op b s p

  module _ (op : IsOpen con) (b : ℕ) where
    After-with_host :
        (i c p : ℕ) (q q' : con.Queue)
        → p ≡ 4 * i
        → op.contents q ≡ []
        → op.contents q' ≡ []
        → i ≤ loops
        → (0 < i → c ≡ b)
        → After op b (system con (side i sending b) (side i receiving c) q q') p
    After-with_host i c p q q' at e e' le back = elim (dec_lt i loops) [
      | yes lt ↦
          let (q1, sent, full) = op.sends b q e in
          host_next (system con (side i receiving b) (side i receiving c) q1 q')
            (host_sends i b (side i receiving c) q q' q1 lt sent)
            (card_waits i c (side i sending b) q q' (op.empty_waits q e)) (omega arith)
            (to_the_card i c q1 q' (omega arith) refl full e' lt)
      | no ge ↦
          over (omega arith) (host_over i b sending (side i receiving c) q q' (omega arith))
            (card_waits i c (side i sending b) q q' (op.empty_waits q e)) (omega arith)
            (omega arith) (back (omega arith))
    ]

    After-to_the_card :
        (i c p : ℕ) (q q' : con.Queue)
        → p ≡ 4 * i + 1
        → op.contents q ≡ b ∷ []
        → op.contents q' ≡ []
        → i < loops
        → After op b (system con (side i receiving b) (side i receiving c) q q') p
    After-to_the_card i c p q q' at e e' lt =
        let (q1, got, empty) = op.receives b q e in
        card_next (system con (side i receiving b) (side i sending b) q1 q')
          (card_receives i c b (side i receiving b) q q' q1 lt got)
          (host_waits i b (side i receiving c) q q' lt (op.empty_waits q' e')) (omega arith)
          (with_card i q1 q' (omega arith) refl empty e' lt)

    After-with_card :
        (i p : ℕ) (q q' : con.Queue)
        → p ≡ 4 * i + 2
        → op.contents q ≡ []
        → op.contents q' ≡ []
        → i < loops
        → After op b (system con (side i receiving b) (side i sending b) q q') p
    After-with_card i p q q' at e e' lt =
        let (q1, sent, full) = op.sends b q' e' in
        card_next (system con (side i receiving b) (side (i + 1) receiving b) q q1)
          (card_sends i b (side i receiving b) q q' q1 lt sent)
          (host_waits i b (side i sending b) q q' lt (op.empty_waits q' e')) (omega arith)
          (to_the_host i q q1 (omega arith) refl e full lt)

    After-to_the_host :
        (i p : ℕ) (q q' : con.Queue)
        → p ≡ 4 * i + 3
        → op.contents q ≡ []
        → op.contents q' ≡ b ∷ []
        → i < loops
        → After op b (system con (side i receiving b) (side (i + 1) receiving b) q q') p
    After-to_the_host i p q q' at e e' lt =
        let (q1, got, empty) = op.receives b q' e' in
        host_next (system con (side (i + 1) sending b) (side (i + 1) receiving b) q q1)
          (host_receives i b b (side (i + 1) receiving b) q q' q1 lt got)
          (card_waits (i + 1) b (side i receiving b) q q' (op.empty_waits q e)) (omega arith)
          (with_host (i + 1) b q q1 (omega arith) refl e empty (omega arith) (λ _. refl))

    pub Phase-After : (s : System con) (p : ℕ) → Phase op b s p → After op b s p
    Phase-After s p (with_host i c q q' at e h h' le back) =
        rw e (After-with_host i c p q q' at h h' le back)
    Phase-After s p (to_the_card i c q q' at e h h' lt) =
        rw e (After-to_the_card i c p q q' at h h' lt)
    Phase-After s p (with_card i q q' at e h h' lt) = rw e (After-with_card i p q q' at h h' lt)
    Phase-After s p (to_the_host i q q' at e h h' lt) = rw e (After-to_the_host i p q q' at h h' lt)
