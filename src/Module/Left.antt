-- ===== src/Module/Left.antt =====
-- Which endpoints are open after `scif_start` and `scif_end` of the kernel modules of the host.
use mathlib.Core.Path.{subst}
use xeon_phi_kernel_integrat.Base.{ℕ, Bool, true, false, if◌then◌else◌, ◌≡◌, ◌⊎◌, refl, sym, ◌∙◌}
use xeon_phi_kernel_integrat.Client.Step.{Exit, value, returned}
use xeon_phi_kernel_integrat.Client.Host.{same_bytes}
use xeon_phi_kernel_integrat.Module.Start.{
  Kernel, cleared, Code, loaded, unequal, failed, State, until_done, scif_end, compared,
  not_compared, scif_start, readwrite_start,
}
use xeon_phi_kernel_integrat.Module.Kmalloc.{
  release, pages_end, pages_steps_done, ended_by, pages_start, latency_steps_done, latency_end,
  latency_start,
}
use xeon_phi_kernel_integrat.Module.Scif.{IsScif, OpensTwo, Opens, IsLeft, close_two, close_any}
use xeon_phi_kernel_integrat.Module.Open.{Now, Done}
use xeon_phi_kernel_integrat.Module.Closed.{until_done-Makes, pages-Makes, latency-Makes}

module _ (k : Kernel) (scif : IsScif k) where
  -- the code after `exit:`: it closes `endpoint` last, and no other endpoint
  abbrev Closes : (State k → k.World) → Type 0
  Closes end =
      (s : State k)
      → (v : k.World) × (scif.is_open v ≡ scif.is_open s.1) × (end s ≡ k.scif_close s.0.endpoint v)

  scif_end-Closes : Closes (scif_end k)
  unfolding scif_end
  scif_end-Closes (d, w) =
      let w0 = k.scif_unregister d.remote_endpoint d.regreturn0 d.len w in
      let w1 = k.scif_unregister d.remote_endpoint d.regreturn1 d.len w0 in
      (
        k.vfree d.ptr (k.vfree d.return_ptr w1),
        scif.vfree_kept d.ptr (k.vfree d.return_ptr w1)
            ∙ scif.vfree_kept d.return_ptr w1
            ∙ scif.unregister_kept d.remote_endpoint d.regreturn1 d.len w0
            ∙ scif.unregister_kept d.remote_endpoint d.regreturn0 d.len w,
        refl,
      )

  release-Closes : Closes (release k)
  unfolding release
  release-Closes (d, w) =
      let w0 = k.kfree d.return_ptr w in
      let w1 = k.kfree d.ptr w0 in
      (
        k.kfree d.placeholder w1,
        scif.kfree_kept d.placeholder w1
            ∙ scif.kfree_kept d.ptr w0
            ∙ scif.kfree_kept d.return_ptr w,
        refl,
      )

  latency_end-Closes : Closes (latency_end k)
  unfolding latency_end
  latency_end-Closes = release-Closes

  pages_end-Closes : Closes (pages_end k)
  unfolding pages_end
  pages_end-Closes (d, w) =
      let w0 = k.scif_unregister d.remote_endpoint d.ptr d.len w in
      let w1 = k.scif_unregister d.remote_endpoint d.return_ptr d.len w0 in
      let (v, same, e) = release-Closes (d, w1) in
      (
        v,
        same
            ∙ scif.unregister_kept d.remote_endpoint d.return_ptr d.len w0
            ∙ scif.unregister_kept d.remote_endpoint d.ptr d.len w,
        e,
      )

  -- After a `scif_start` that has not failed and a `scif_end`, the accepted endpoint, which is new, is
  -- still open, and no other that was not open before; after a `scif_start` that has failed, none is,
  -- or the accepted endpoint alone.
  abbrev pub IsLeaking : k.World → (State k → k.World) → Code × State k → Type 0
  IsLeaking start end (loaded, (d, w)) =
      IsLeft (scif.is_open start) d.remote_endpoint (scif.is_open (end (d, w)))
  IsLeaking start end (unequal, (d, w)) =
      IsLeft (scif.is_open start) d.remote_endpoint (scif.is_open (end (d, w)))
  IsLeaking start end (failed, (d, w)) =
      ((x : ℕ) → scif.is_open w x ≡ scif.is_open start x)
      ⊎ IsLeft (scif.is_open start) d.remote_endpoint (scif.is_open w)

  module _ (start : k.World) (end : State k → k.World) (closes : Closes end) where
    abbrev before : ℕ → Bool
    before = scif.is_open start

    ended_two :
        (s : State k)
        → Now k scif before OpensTwo s
        → IsLeft before s.0.remote_endpoint (scif.is_open (end s))
    ended_two s h =
        let (v, same, e) = closes s in
        subst (λ w. IsLeft before s.0.remote_endpoint (scif.is_open w)) (sym e)
          (close_two k scif start s.0.endpoint s.0.remote_endpoint v
            (subst (OpensTwo before s.0.endpoint s.0.remote_endpoint) (sym same) h))

    ended_any :
        (s : State k)
        → Now k scif before Opens s
        → ((x : ℕ) → scif.is_open (end s) x ≡ before x)
          ⊎ IsLeft before s.0.remote_endpoint (scif.is_open (end s))
    ended_any s h =
        let (v, same, e) = closes s in
        subst
          (λ w.
            ((x : ℕ) → scif.is_open w x ≡ before x)
            ⊎ IsLeft before s.0.remote_endpoint (scif.is_open w))
          (sym e)
          (close_any k scif start s.0.endpoint s.0.remote_endpoint v
            (subst (Opens before s.0.endpoint s.0.remote_endpoint) (sym same) h))

    ended_by-IsLeaking :
        (o : Exit (Unit {0}) × State k)
        → Done k scif before OpensTwo o
        → IsLeaking start end (ended_by k end o)
    unfolding ended_by
    ended_by-IsLeaking (value a, s) h = ended_two s h
    ended_by-IsLeaking (returned c, s) h = ended_any s h

  judged :
      (start : k.World) (b : Bool) (s : State k)
      → Now k scif (scif.is_open start) OpensTwo s
      → IsLeaking start (scif_end k) (if b then loaded else unequal, s)
  judged start true s h = ended_two start (scif_end k) scif_end-Closes s h
  judged start false s h = ended_two start (scif_end k) scif_end-Closes s h

  compared-IsLeaking :
      (start : k.World) (o : Exit (Unit {0}) × State k)
      → Done k scif (scif.is_open start) OpensTwo o
      → IsLeaking start (scif_end k) (compared k o)
  unfolding compared
  compared-IsLeaking start (value a, (d, w)) h =
      judged start (same_bytes d.len d.ptr d.return_ptr (k.memory w)) (d, w) h
  compared-IsLeaking start (returned c, s) h = ended_any start (scif_end k) scif_end-Closes s h

  not_compared-IsLeaking :
      (start : k.World) (o : Exit (Unit {0}) × State k)
      → Done k scif (scif.is_open start) OpensTwo o
      → IsLeaking start (scif_end k) (not_compared k o)
  unfolding not_compared
  not_compared-IsLeaking start (value a, s) h = ended_two start (scif_end k) scif_end-Closes s h
  not_compared-IsLeaking start (returned c, s) h = ended_any start (scif_end k) scif_end-Closes s h

  pub scif_start-IsLeaking : (n : ℕ) (w : k.World) → IsLeaking w (scif_end k) (scif_start k n w)
  unfolding scif_start
  scif_start-IsLeaking n w =
      compared-IsLeaking w (until_done k n (λ d. d.ptr) (cleared, w))
        (until_done-Makes k scif (scif.is_open w) n (λ d. d.ptr) (cleared, w) (refl, refl))

  pub readwrite_start-IsLeaking : (w : k.World) → IsLeaking w (scif_end k) (readwrite_start k w)
  unfolding readwrite_start
  readwrite_start-IsLeaking w =
      not_compared-IsLeaking w (until_done k 4096 (λ d. 0) (cleared, w))
        (until_done-Makes k scif (scif.is_open w) 4096 (λ d. 0) (cleared, w) (refl, refl))

  pub pages_start-IsLeaking : (w : k.World) → IsLeaking w (pages_end k) (pages_start k w)
  unfolding pages_start
  pages_start-IsLeaking w =
      ended_by-IsLeaking w (pages_end k) pages_end-Closes (pages_steps_done k (cleared, w))
        (pages-Makes k scif (scif.is_open w) (cleared, w) (refl, refl))

  pub latency_start-IsLeaking : (w : k.World) → IsLeaking w (latency_end k) (latency_start k w)
  unfolding latency_start
  latency_start-IsLeaking w =
      ended_by-IsLeaking w (latency_end k) latency_end-Closes (latency_steps_done k (cleared, w))
        (latency-Makes k scif (scif.is_open w) (cleared, w) (refl, refl))
