-- ===== src/Client/Unshare.antt =====
-- The end of the host's programs, where they give their two windows up.
use xeon_phi_kernel_integrat.Base.{ℕ, ◌≡◌, refl, ◌∙◌}
use xeon_phi_kernel_integrat.Client.Library.{Scif, IsDocumented}
use xeon_phi_kernel_integrat.Client.Step.{check, tolerated, strict}
use xeon_phi_kernel_integrat.Client.Host.{Host, unshare}
use xeon_phi_kernel_integrat.Client.Rules.{Failure, unregister_failed, Post, then_rule, check_rule}
use xeon_phi_kernel_integrat.Client.Safe.{not_done, not_strict}

module _ (lib : Scif) (doc : IsDocumented lib) (Fail : lib.World → Type 0)
    (fails : (w' : lib.World) → Failure lib w' → Fail w') (h : Host) (n : ℕ) (w : lib.World) where
  -- The program's own memory is as it was.
  abbrev pub Same : lib.World → Type 0
  Same w' = lib.local_memory w' ≡ lib.local_memory w

  tolerated_step :
      (e a : ℕ) (w' : lib.World)
      → Same w'
      → Post lib Fail Same (check (tolerated (lib.scif_unregister e a n)) w')
  unfolding tolerated
  tolerated_step e a w' same =
      check_rule lib Fail Same (tolerated (lib.scif_unregister e a n)) w'
        (λ ok. doc.unregister_local e a n w' ∙ same)
        (λ bad.
          fails _ (unregister_failed e a n w' (not_done lib (lib.scif_unregister e a n w') bad)))

  strict_step :
      (e a : ℕ) (w' : lib.World)
      → Same w'
      → Post lib Fail Same (check (strict (lib.scif_unregister e a n)) w')
  unfolding strict
  strict_step e a w' same =
      check_rule lib Fail Same (strict (lib.scif_unregister e a n)) w'
        (λ ok. doc.unregister_local e a n w' ∙ same)
        (λ bad.
          fails _ (unregister_failed e a n w' (not_strict lib (lib.scif_unregister e a n w') bad)))

  pub unshare_rule : Post lib Fail Same (unshare lib h n w)
  unfolding unshare
  unshare_rule =
      then_rule lib Fail Same Same (check (tolerated (lib.scif_unregister h.new_endpoint h.ptr n)))
        (check (strict (lib.scif_unregister h.new_endpoint h.return_ptr n))) w
        (tolerated_step h.new_endpoint h.ptr w refl) (strict_step h.new_endpoint h.return_ptr)
