-- ===== src/Hosts/Run.antt =====
-- How the programs of Hosts/Exchange end.
use xeon_phi_kernel_integrat.Base.{ℕ, Bool, true, false, ◌≡◌, ◌⊎◌, inl, inr, refl, ap, sym, ◌∙◌}
use xeon_phi_kernel_integrat.Client.Library.{Scif, IsDocumented}
use xeon_phi_kernel_integrat.Client.Step.{M, Exit, value, returned, ◌>>=◌, ◌>>◌, finish, effect}
use xeon_phi_kernel_integrat.Client.Host.{Host, unshare, same_bytes}
use xeon_phi_kernel_integrat.Client.HostLaws.{IsSame, same_bytes-IsSame, IsSame-same_bytes}
use xeon_phi_kernel_integrat.Client.Unshare.{Same, unshare_rule}
use xeon_phi_kernel_integrat.Client.Rules.{Failure, Post}
use xeon_phi_kernel_integrat.Hosts.Exchange.{report, report_end}

module _ (lib : Scif) (h : Host) (n : ℕ) (w : lib.World) where
  -- What `main` prints is the truth about the buffers, or a failed call has just left the world as it is.
  abbrev pub IsTrue : Exit Bool × lib.World → Type 0
  IsTrue (value true, w') = IsSame n h.ptr h.return_ptr (lib.local_memory w)
  IsTrue (value false, w') = ¬ IsSame n h.ptr h.return_ptr (lib.local_memory w)
  IsTrue (returned c, w') = (c ≡ 1) × Failure lib w'

  printed :
      (b : Bool) (w' : lib.World)
      → same_bytes n h.ptr h.return_ptr (lib.local_memory w) ≡ b
      → IsTrue (value b, w')
  printed true w' e = same_bytes-IsSame n h.ptr h.return_ptr (lib.local_memory w) e
  printed false w' e = λ eq.
      let contrary : true ≡ false =
        sym (IsSame-same_bytes n h.ptr h.return_ptr (lib.local_memory w) eq) ∙ e in
      cc

  abbrev tail : M lib.World Bool
  tail = do
    same ← report lib h n
    effect (lib.sleep 2)
    effect (lib.scif_close h.endpoint)
    effect (lib.scif_close h.new_endpoint)
    finish same

  reported :
      (doc : IsDocumented lib) (o : Exit (Unit {0}) × lib.World)
      → Post lib (Failure lib) (Same lib doc (Failure lib) (λ _ f. f) h n w) o
      → IsTrue (let (r, w') = o in elim r [ value _ ↦ tail w' | returned c ↦ (returned c, w') ])
  unfolding report effect
  reported doc (value _, w') same =
      printed (same_bytes n h.ptr h.return_ptr (lib.local_memory w'))
        (lib.scif_close h.new_endpoint (lib.scif_close h.endpoint (lib.sleep 2 w')))
        (ap (same_bytes n h.ptr h.return_ptr) (sym same))
  reported doc (returned c, w') f = f

-- What the ends of aes_bench/scif_host.c and scaling/scif_host.c print is the truth: with a SCIF
-- library that keeps to its documentation, they say that the buffers are the same only where the
-- two hold the same `n` bytes, and that they are not only where they do not; where they print
-- neither, they return 1, in a state of the world that a failed call of the library has just left.
pub report_end_lem :
    (lib : Scif) (h : Host) (n : ℕ) (w : lib.World)
    → IsDocumented lib
    → IsTrue lib h n w (report_end lib h n w)
unfolding report_end
report_end_lem lib h n w doc =
    reported lib h n w doc (unshare lib h n w) (unshare_rule lib doc (Failure lib) (λ _ f. f) h n w)

seen :
    (lib : Scif) (h : Host) (n : ℕ) (w : lib.World) (o : Exit Bool × lib.World)
    → IsTrue lib h n w o
    → IsSame n h.ptr h.return_ptr (lib.local_memory w)
    → (o.0 ≡ value true) ⊎ ((o.0 ≡ returned 1) × Failure lib o.1)
seen lib h n w (value true, w') q same = inl refl
seen lib h n w (value false, w') q same = absurd (q same)
seen lib h n w (returned c, w') (e, f) same = inr (ap returned e, f)

-- Where the two buffers hold the same bytes, the program says so, unless it stops right after a failed
-- call of its library.
pub report_end-IsSame :
    (lib : Scif) (h : Host) (n : ℕ) (w : lib.World)
    → IsDocumented lib
    → IsSame n h.ptr h.return_ptr (lib.local_memory w)
    → let (r, w') = report_end lib h n w in (r ≡ value true) ⊎ ((r ≡ returned 1) × Failure lib w')
report_end-IsSame lib h n w doc same =
    seen lib h n w (report_end lib h n w) (report_end_lem lib h n w doc) same
