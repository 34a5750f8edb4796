-- ===== src/Openmp/HostRun.antt =====
-- The end of openmpmic/scif_host.c, by itself and after the card's program.
use xeon_phi_kernel_integrat.Base.{ℕ, Bool, true, false, ◌≡◌, ◌⊎◌, inl, inr, refl, ap, sym, ◌∙◌}
use xeon_phi_kernel_integrat.Client.Library.{Scif, IsDocumented}
use xeon_phi_kernel_integrat.Client.Step.{M, Exit, value, returned, ◌>>◌, effect}
use xeon_phi_kernel_integrat.Client.Session.{Session}
use xeon_phi_kernel_integrat.Client.Host.{Host, same_bytes, unshare}
use xeon_phi_kernel_integrat.Client.HostLaws.{IsSame, same_bytes-IsSame, IsSame-same_bytes}
use xeon_phi_kernel_integrat.Client.Rules.{Failure, Post, then_rule}
use xeon_phi_kernel_integrat.Client.Unshare.{unshare_rule}
use xeon_phi_kernel_integrat.Client.Back.{IsBack}
use xeon_phi_kernel_integrat.Openmp.Card.{len}
use xeon_phi_kernel_integrat.Openmp.Host.{compare_buffers, host_end}

module _ (lib : Scif) (doc : IsDocumented lib) (h : Host) (w : lib.World) where
  -- The two buffers of the host hold the same bytes.
  abbrev pub IsEqual : Type 0
  IsEqual = IsSame len h.ptr h.return_ptr (lib.local_memory w)

  -- why `main` may return 1
  abbrev pub Reason : lib.World → Type 0
  Reason w' = Failure lib w' ⊎ (¬ IsEqual)

  abbrev Same : lib.World → Type 0
  Same w' = lib.local_memory w' ≡ lib.local_memory w

  verdict :
      (b : Bool) (w' : lib.World)
      → (b ≡ true → IsEqual)
      → (b ≡ false → ¬ IsEqual)
      → Post lib Reason (λ _. IsEqual) (elim b [ true ↦ (value tt, w') | false ↦ (returned 1, w') ])
  verdict true w' h g = h refl
  verdict false w' h g = (refl, inr (g refl))

  compared : (w' : lib.World) → Same w' → Post lib Reason (λ _. IsEqual) (compare_buffers lib h w')
  unfolding compare_buffers
  compared w' same =
      verdict (same_bytes len h.ptr h.return_ptr (lib.local_memory w')) w'
        (λ e.
          same_bytes-IsSame len h.ptr h.return_ptr (lib.local_memory w)
            (ap (same_bytes len h.ptr h.return_ptr) (sym same) ∙ e))
        (λ e eq.
          let contrary : true ≡ false =
            sym (IsSame-same_bytes len h.ptr h.return_ptr (lib.local_memory w) eq)
            ∙ ap (same_bytes len h.ptr h.return_ptr) (sym same)
            ∙ e in
          cc)

  closed : (e : ℕ) (w' : lib.World) → Same w' → Post lib Reason Same (effect (lib.scif_close e) w')
  unfolding effect
  closed e w' same = doc.close_local e w' ∙ same

  abbrev release : M lib.World (Unit {0})
  release = effect (λ w'. lib.free h.return_ptr (lib.free h.ptr w'))

  released : (w' : lib.World) → IsEqual → Post lib Reason (λ _. IsEqual) (release w')
  unfolding effect
  released w' eq = eq

  ended : Post lib Reason (λ _. IsEqual) (host_end lib h w)
  unfolding host_end
  ended =
      then_rule lib Reason Same (λ _. IsEqual) (unshare lib h len)
        (effect (lib.scif_close h.endpoint)
          >> (effect (lib.scif_close h.new_endpoint) >> (compare_buffers lib h >> release)))
        w (unshare_rule lib doc Reason (λ _. inl) h len w)
        λ w1 q1.
          then_rule lib Reason Same (λ _. IsEqual) (effect (lib.scif_close h.endpoint))
            (effect (lib.scif_close h.new_endpoint) >> (compare_buffers lib h >> release)) w1
            (closed h.endpoint w1 q1)
            λ w2 q2.
              then_rule lib Reason Same (λ _. IsEqual) (effect (lib.scif_close h.new_endpoint))
                (compare_buffers lib h >> release) w2 (closed h.new_endpoint w2 q2)
                λ w3 q3.
                  then_rule lib Reason (λ _. IsEqual) (λ _. IsEqual) (compare_buffers lib h) release
                    w3 (compared w3 q3) released

judged :
    (lib : Scif) (E : Type 0) (F : lib.World → Type 0) (o : Exit (Unit {0}) × lib.World)
    → Post lib F (λ _. E) o
    → ((o.0 ≡ value tt) × E) ⊎ ((o.0 ≡ returned 1) × F o.1)
judged lib E F (value tt, w) q = inl (refl, q)
judged lib E F (returned c, w) (e, f) = inr (ap returned e, f)

-- The verdict of openmpmic/scif_host.c: with a SCIF library that keeps to its documentation, the
-- part of `main` after the wait goes through to its end only where the two buffers hold the same
-- `len` bytes, and otherwise returns 1, and then they differ or a failed call of the library has
-- just left the state of the world.
pub host_end_lem :
    (lib : Scif) (h : Host) (w : lib.World)
    → IsDocumented lib
    → let (r, w') = host_end lib h w in
      ((r ≡ value tt) × IsSame len h.ptr h.return_ptr (lib.local_memory w))
      ⊎ ((r ≡ returned 1)
          × (Failure lib w' ⊎ (¬ IsSame len h.ptr h.return_ptr (lib.local_memory w))))
host_end_lem lib h w doc =
    judged lib (IsSame len h.ptr h.return_ptr (lib.local_memory w)) (Reason lib doc h w)
      (host_end lib h w) (ended lib doc h w)

-- The card's program and the host's together: where the loops of the card have given the buffers
-- back, by the offsets that the host sent, and the host's memory at the end of its wait is what the
-- card left in it, the host's program finds its buffers equal and goes through to its end, unless
-- it stops right after a failed call of its library.
pub host_end-benchmark :
    (card_lib host_lib : Scif) (s : Session) (w w' : card_lib.World) (h : Host) (v : host_lib.World)
    → IsDocumented host_lib
    → IsBack card_lib len s w w'
    → h.ptr ≡ s.remote_ptr
    → h.return_ptr ≡ s.return_ptr
    → host_lib.local_memory v ≡ card_lib.peer_memory w'
    → let (r, v') = host_end host_lib h v in
      (r ≡ value tt) ⊎ ((r ≡ returned 1) × Failure host_lib v')
host_end-benchmark card_lib host_lib s w w' h v doc back e e' left =
    elim (host_end_lem host_lib h v doc) [
      | inl (ok, _) ↦ inl ok
      | inr (bad, inl f) ↦ inr (bad, f)
      | inr (bad, inr differ) ↦ absurd (differ equal)
    ]
  where
    equal : IsSame len h.ptr h.return_ptr (host_lib.local_memory v)
    equal i p = rw (left, e, e') ((back i p).1 ∙ sym (back i p).0)
