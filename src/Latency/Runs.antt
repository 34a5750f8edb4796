-- ===== src/Latency/Runs.antt =====
-- The runs of latency/sendrecv.
use xeon_phi_kernel_integrat.Base.{
  ℕ, zero, suc, ◌+◌, ◌-◌, ◌*◌, ◌≤◌, ◌<◌, [], ◌≡◌, ◌⊎◌, inl, inr, refl, sym, arith,
}
use mathlib.Core.Path.{subst}
use mathlib.Core.Option.{none}
use xeon_phi_kernel_integrat.Latency.PingPong.{
  Connection, IsOpen, loops, System, host_step, card_step, start, Step, by_host, by_card, Run, here,
  next,
}
use xeon_phi_kernel_integrat.Latency.Phases.{
  Phase, with_host, to_the_card, with_card, to_the_host, After, over, host_next, card_next,
  Phase-After,
}

module _ (con : Connection) (op : IsOpen con) (b : ℕ) where
  Step-Phase :
      (s t : System con) (p : ℕ) → After con op b s p → Step con s t → Phase con op b t (suc p)
  Step-Phase s t p (over at h k _ _ _) (by_host e) = cc
  Step-Phase s t p (over at h k _ _ _) (by_card e) = cc
  Step-Phase s t p (host_next u e stuck lt phase) (by_host e') =
      let same : t ≡ u = cc in rw same phase
  Step-Phase s t p (host_next u e stuck lt phase) (by_card e') = cc
  Step-Phase s t p (card_next u e stuck lt phase) (by_host e') = cc
  Step-Phase s t p (card_next u e stuck lt phase) (by_card e') =
      let same : t ≡ u = cc in rw same phase

  -- The invariant of the runs.
  Run-Phase : {s t : System con} {n : ℕ} → Phase con op b s 0 → Run con s n t → Phase con op b t n
  Run-Phase first here = first
  Run-Phase first (next {n = n} {t = t} {u = u} run step) =
      Step-Phase t u n (Phase-After con op b t n (Run-Phase first run)) step

  visible :
      (t : System con) (n : ℕ)
      → Phase con op b t n
      → (n ≤ 4 * loops)
        × (t.host.buffer ≡ b)
        × ((op.contents t.to_card ≡ []) ⊎ (op.contents t.to_host ≡ []))
  visible t n (with_host i c q q' at e h h' le back) = rw e (omega arith, refl, inl h)
  visible t n (to_the_card i c q q' at e h h' lt) = rw e (omega arith, refl, inr h')
  visible t n (with_card i q q' at e h h' lt) = rw e (omega arith, refl, inl h)
  visible t n (to_the_host i q q' at e h h' lt) = rw e (omega arith, refl, inl h)

  alone :
      (t : System con) (n : ℕ)
      → After con op b t n
      → (host_step con t ≡ none) ⊎ (card_step con t ≡ none)
  alone t n (over at h k _ _ _) = inl h
  alone t n (host_next u e stuck lt phase) = inr stuck
  alone t n (card_next u e stuck lt phase) = inl stuck

  -- Both loops are over, and the card's buffer holds the host's byte.
  abbrev pub IsOver : System con → Type 0
  IsOver t = (t.host.round ≡ loops) × (t.card.round ≡ loops) × (t.card.buffer ≡ b)

  going_on :
      (t : System con) (n : ℕ)
      → After con op b t n
      → ((n ≡ 4 * loops) × IsOver t) ⊎ ((n < 4 * loops) × ((u : System con) × Step con t u))
  going_on t n (over at h k r r' e) = inl (at, (r, r', e))
  going_on t n (host_next u e stuck lt phase) = inr (lt, (u, by_host e))
  going_on t n (card_next u e stuck lt phase) = inr (lt, (u, by_card e))

  same_next :
      (s t u : System con) (n : ℕ) → After con op b s n → Step con s t → Step con s u → t ≡ u
  same_next s t u n (over at h k _ _ _) (by_host e) _ = cc
  same_next s t u n (over at h k _ _ _) (by_card e) _ = cc
  same_next s t u n (host_next v e stuck lt phase) (by_host e') (by_host e'') = cc
  same_next s t u n (host_next v e stuck lt phase) (by_card e') _ = cc
  same_next s t u n (host_next v e stuck lt phase) (by_host e') (by_card e'') = cc
  same_next s t u n (card_next v e stuck lt phase) (by_card e') (by_card e'') = cc
  same_next s t u n (card_next v e stuck lt phase) (by_host e') _ = cc
  same_next s t u n (card_next v e stuck lt phase) (by_card e') (by_host e'') = cc

  prepend :
      (s t : System con) {n : ℕ} {u : System con}
      → Step con s t
      → Run con t n u
      → Run con s (suc n) u
  prepend s t step here = next here step
  prepend s t step (next run last) = next (prepend s t step run) last

  extend :
      (left n : ℕ) (t : System con)
      → n + left ≡ 4 * loops
      → Phase con op b t n
      → (u : System con) × Run con t left u × IsOver u
  extend zero n t sum phase = elim (going_on t n (Phase-After con op b t n phase)) [
    | inl (at, final) ↦ (t, here, final)
    | inr (lt, _) ↦ absurd (omega arith)
  ]
  extend (suc left) n t sum phase = elim (going_on t n (Phase-After con op b t n phase)) [
    | inl (at, final) ↦ absurd (omega arith)
    | inr (lt, (v, step)) ↦
        let (u, run, final) =
          extend left (suc n) v (omega arith)
            (Step-Phase t v n (Phase-After con op b t n phase) step) in
        (u, prepend t v step run, final)
  ]

  same_end :
      {s : System con} {n : ℕ} {t u : System con}
      → Phase con op b s 0
      → Run con s n t
      → Run con s n u
      → t ≡ u
  same_end first here here = refl
  same_end first (next {n = n} {t = t} {u = t'} run step) (next {t = u} {u = u'} run' step') =
      let same : u ≡ t = sym (same_end first run run') in
      same_next t t' u' n (Phase-After con op b t n (Run-Phase first run)) step
        (subst (λ v. Step con v u') same step')

module _ (con : Connection) (op : IsOpen con) (b c : ℕ) (q q' : con.Queue) (e : op.contents q ≡ [])
    (e' : op.contents q' ≡ []) where
  begin : Phase con op b (start con b c q q') 0
  unfolding start
  begin = with_host 0 c q q' refl refl e e' (omega arith) (λ p. absurd (omega arith))

  -- A run of latency/sendrecv keeps the byte: after `n` calls, the host's buffer still holds the byte it
  -- held at the start, at most `4 * loops` calls have been made, at most one of the two sides can go
  -- on, and at most one of the two directions holds something.
  pub byte_kept :
      (n : ℕ) (t : System con)
      → Run con (start con b c q q') n t
      → (n ≤ 4 * loops)
        × (t.host.buffer ≡ b)
        × ((host_step con t ≡ none) ⊎ (card_step con t ≡ none))
        × ((op.contents t.to_card ≡ []) ⊎ (op.contents t.to_host ≡ []))
  byte_kept n t run =
      let phase = Run-Phase con op b begin run in
      let (bound, kept, empty) = visible con op b t n phase in
      (bound, kept, alone con op b t n (Phase-After con op b t n phase), empty)

  -- The two programs never wait for each other for ever: each run of `n` calls can go on to `4 * loops`
  -- calls, and then both loops have made all their rounds, and the card's buffer holds the byte that
  -- the host's held at the start.
  pub loops_end :
      (n : ℕ) (t : System con)
      → Run con (start con b c q q') n t
      → (u : System con) × Run con t (4 * loops - n) u
        × (u.host.round ≡ loops)
        × (u.card.round ≡ loops)
        × (u.card.buffer ≡ b)
  loops_end n t run =
      let phase = Run-Phase con op b begin run in
      let bound = (visible con op b t n phase).0 in
      let (u, rest, final) = extend con op b (4 * loops - n) n t (omega arith) phase in
      (u, rest, final.0, final.1, final.2)

  -- The scheduler has no say: two runs of the same length end in the same state.
  pub schedule_free :
      (n : ℕ) (t u : System con)
      → Run con (start con b c q q') n t
      → Run con (start con b c q q') n u
      → t ≡ u
  schedule_free n t u run run' = same_end con op b begin run run'
