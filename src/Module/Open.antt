-- ===== src/Module/Open.antt =====
-- How `scif_start` opens its endpoints, step by step.
use xeon_phi_kernel_integrat.Base.{
  ℕ, Bool, true, false, ◌==◌, ◌||◌, List, [], ◌∷◌, if◌then◌else◌, ◌≡◌, inl, inr, refl, ap, sym,
  arith, ◌∙◌,
}
use xeon_phi_kernel_integrat.Client.Step.{Exit, value, returned, M, ◌>>◌}
use xeon_phi_kernel_integrat.Module.Start.{
  Kernel, ScifModule, State, call_step, non_null, in_turn, name_step, open_step, bind_step,
  listen_step, accept_step, connect_steps,
}
use xeon_phi_kernel_integrat.Module.Taken.{not_null, apart}
use xeon_phi_kernel_integrat.Module.Scif.{IsScif, OpensNone, OpensOne, OpensTwo, Opens}

module _ (k : Kernel) (scif : IsScif k) (before : ℕ → Bool) where
  abbrev pub Pred : Type 1
  Pred = (ℕ → Bool) → ℕ → ℕ → (ℕ → Bool) → Type 0

  abbrev pub Now : Pred → State k → Type 0
  Now P (d, w) = P before d.endpoint d.remote_endpoint (scif.is_open w)

  -- A part that goes on has made `Q` hold; one that goes to `exit` leaves what `scif_close` can close.
  abbrev pub Done : Pred → Exit (Unit {0}) × State k → Type 0
  Done Q (value a, s) = Now Q s
  Done Q (returned c, s) = Now Opens s

  after :
      (Q R : Pred) (f : M (State k) (Unit {0})) (o : Exit (Unit {0}) × State k)
      → Done Q o
      → ((s : State k) → Now Q s → Done R (f s))
      → Done R (let (r, s) = o in elim r [ value a ↦ f s | returned c ↦ (returned c, s) ])
  after Q R f (value a, s) q h = h s q
  after Q R f (returned c, s) q h = q

  -- what a part makes of a condition
  abbrev pub Makes : Pred → Pred → M (State k) (Unit {0}) → Type 0
  Makes P Q m = (s : State k) → Now P s → Done Q (m s)

  pub Makes-then :
      (P Q R : Pred) (m f : M (State k) (Unit {0})) → Makes P Q m → Makes Q R f → Makes P R (m >> f)
  Makes-then P Q R m f h g s p = after Q R f (m s) (h s p) g

  abbrev pub AllKeep : Pred → List (M (State k) (Unit {0})) → Type 0
  AllKeep P [] = Unit {0}
  AllKeep P (m ∷ ms) = Makes P P m × AllKeep P ms

  pub Makes-in_turn :
      (P : Pred) (ms : List (M (State k) (Unit {0}))) → AllKeep P ms → Makes P P (in_turn k ms)
  unfolding in_turn
  Makes-in_turn P [] h s p = p
  Makes-in_turn P (m ∷ ms) (h, hs) s p =
      Makes-then P P P m (in_turn k ms) h (Makes-in_turn P ms hs) s p

  tested :
      (Q : Pred) (ok : Bool) (s : State k)
      → (ok ≡ true → Now Q s)
      → (ok ≡ false → Now Opens s)
      → Done Q (if ok then value tt else returned 0, s)
  tested Q true s h g = h refl
  tested Q false s h g = g refl

  -- A call that opens and closes nothing, and leaves the two endpoints alone.
  pub keep_rule :
      {A : Type 0} (P : Pred) (call : ScifModule → k.World → A × k.World)
      (put : A → ScifModule → ScifModule) (test : A → ScifModule → Bool)
      → ((d : ScifModule) (w : k.World) → scif.is_open (call d w).1 ≡ scif.is_open w)
      → ((a : A) (d : ScifModule) → (put a d).endpoint ≡ d.endpoint)
      → ((a : A) (d : ScifModule) → (put a d).remote_endpoint ≡ d.remote_endpoint)
      → ((s : State k) → Now P s → Now Opens s)
      → Makes P P (call_step k call put test)
  unfolding call_step
  keep_rule P call put test e same same' weaker (d, w) p =
      let a = (call d w).0 in
      let s' : State k = (put a d, (call d w).1) in
      let p' : Now P s' = rw (e d w, same a d, same' a d) p in
      tested P (test a (put a d)) s' (λ _. p') (λ _. weaker s' p')

  open-Makes : Makes OpensNone OpensOne (open_step k)
  unfolding open_step call_step
  open-Makes (d, w) (null, o) =
      let e = (k.scif_open w).0 in
      let s' : State k = (record d { endpoint = e }, (k.scif_open w).1) in
      elim (scif.opened w) [
        | inl (none, same) ↦
            tested OpensOne (non_null k e) s' (λ ok. absurd (not_null k e none ok))
              (λ _. inl (none, same ∙ o))
        | inr (fresh, added) ↦
            let one : Now OpensOne s' = (
              ap (λ (f : ℕ → Bool). f e) (sym o) ∙ fresh,
              (λ x. added x ∙ ap (λ (f : ℕ → Bool). (x == e) || f x) o),
            ) in
            tested OpensOne (non_null k e) s' (λ _. one) (λ _. inr (inl one))
      ]

  accept-Makes : Makes OpensOne OpensTwo (accept_step k)
  unfolding accept_step call_step
  accept-Makes (d, w) (unused, o) =
      let r = (k.scif_accept d.endpoint w).0 in
      let s' : State k = (record d { remote_endpoint = r.1 }, (k.scif_accept d.endpoint w).1) in
      elim (scif.accepted d.endpoint w) [
        | inl (bad, same) ↦
            tested OpensTwo (r.0 == 0) s' (λ ok. absurd (bad (ground (arith, ok))))
              (λ _. inr (inl (unused, (λ x. ap (λ (f : ℕ → Bool). f x) same ∙ o x))))
        | inr (good, fresh, added) ↦
            let (other, new) = apart r.1 d.endpoint (before r.1) (sym (o r.1) ∙ fresh) in
            let two : Now OpensTwo s' =
              (unused, new, other, (λ x. added x ∙ ap (λ b. (x == r.1) || b) (o x))) in
            tested OpensTwo (r.0 == 0) s' (λ _. two) (λ _. inr (inr two))
      ]

  name-Makes : (n p : ℕ) → Makes OpensNone OpensNone (name_step k n p)
  unfolding name_step
  name-Makes n p = keep_rule OpensNone _ _ _ (λ d w. refl) (λ a d. refl) (λ a d. refl) (λ s. inl)

  bind-Makes : Makes OpensOne OpensOne (bind_step k)
  unfolding bind_step
  bind-Makes =
      keep_rule OpensOne _ _ _ (λ d. scif.bind_kept d.endpoint d.port) (λ a d. refl) (λ a d. refl)
        (λ s h. inr (inl h))

  listen-Makes : Makes OpensOne OpensOne (listen_step k)
  unfolding listen_step
  listen-Makes =
      keep_rule OpensOne _ _ _ (λ d. scif.listen_kept d.endpoint 4) (λ a d. refl) (λ a d. refl)
        (λ s h. inr (inl h))

  -- The first steps open both endpoints.
  pub connect-Makes : (n p : ℕ) → Makes OpensNone OpensTwo (in_turn k (connect_steps k n p))
  unfolding in_turn
  connect-Makes n p = Makes-then OpensNone OpensNone OpensTwo (name_step k n p) _ (name-Makes n p) (
      Makes-then OpensNone OpensOne OpensTwo (open_step k) _ open-Makes (
        Makes-then OpensOne OpensOne OpensTwo (bind_step k) _ bind-Makes (
          Makes-then OpensOne OpensOne OpensTwo (listen_step k) _ listen-Makes (
            Makes-then OpensOne OpensTwo OpensTwo (accept_step k) (in_turn k []) accept-Makes
              (Makes-in_turn OpensTwo [] tt)))))
