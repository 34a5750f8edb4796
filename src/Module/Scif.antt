-- ===== src/Module/Scif.antt =====
-- The endpoints of SCIF, and what a kernel module can have opened.
use native.Mathlib.Decide.{ℕ_discrete}
use xeon_phi_kernel_integrat.Base.{
  ℕ, Bool, false, ◌||◌, ◌==◌, if◌then◌else◌, ◌≡◌, ◌≢◌, ◌⊎◌, inl, inr, ap, arith, ◌∙◌,
}
use xeon_phi_kernel_integrat.Module.Start.{Kernel}
use xeon_phi_kernel_integrat.Module.Free.{put_back}

-- The documented behaviour that the theorems rely on. `is_open` says which endpoints the module has
-- open, and the null endpoint is none. `scif_open` gives null, or an endpoint that was not open;
-- `scif_accept` gives a new endpoint where it returns 0, and none elsewhere; `scif_close` closes the
-- endpoint; no other call opens or closes an endpoint of the module.
pub record IsScif (k : Kernel) : Type 0 where
  pub is_open : k.World → ℕ → Bool
  pub null_closed : (w : k.World) → is_open w 0 ≡ false
  pub opened :
      (w : k.World)
      → let (e, w') = k.scif_open w in
        ((e ≡ 0) × (is_open w' ≡ is_open w))
        ⊎ ((is_open w e ≡ false) × ((x : ℕ) → is_open w' x ≡ ((x == e) || is_open w x)))
  pub accepted :
      (e : ℕ) (w : k.World)
      → let ((c, r), w') = k.scif_accept e w in
        ((c ≢ 0) × (is_open w' ≡ is_open w))
        ⊎ ((c ≡ 0) × (is_open w r ≡ false) × ((x : ℕ) → is_open w' x ≡ ((x == r) || is_open w x)))
  pub closed :
      (e : ℕ) (w : k.World) (x : ℕ)
      → is_open (k.scif_close e w) x ≡ (if x == e then false else is_open w x)
  pub bind_kept : (e p : ℕ) (w : k.World) → is_open (k.scif_bind e p w).1 ≡ is_open w
  pub listen_kept : (e n : ℕ) (w : k.World) → is_open (k.scif_listen e n w).1 ≡ is_open w
  pub vmalloc_kept : (n : ℕ) (w : k.World) → is_open (k.vmalloc n w).1 ≡ is_open w
  pub kmalloc_kept : (n : ℕ) (w : k.World) → is_open (k.kmalloc n w).1 ≡ is_open w
  pub vfree_kept : (a : ℕ) (w : k.World) → is_open (k.vfree a w) ≡ is_open w
  pub kfree_kept : (a : ℕ) (w : k.World) → is_open (k.kfree a w) ≡ is_open w
  pub random_kept : (a n : ℕ) (w : k.World) → is_open (k.get_random_bytes a n w) ≡ is_open w
  pub register_kept :
      (e a n o : ℕ) (w : k.World) → is_open (k.scif_register e a n o w).1 ≡ is_open w
  pub send_kept : (e v : ℕ) (w : k.World) → is_open (k.scif_send e v w).1 ≡ is_open w
  pub recv_kept : (e : ℕ) (w : k.World) → is_open (k.scif_recv e w).1 ≡ is_open w
  pub send_from_kept : (e a n : ℕ) (w : k.World) → is_open (k.scif_send_from e a n w) ≡ is_open w
  pub recv_into_kept : (e a n : ℕ) (w : k.World) → is_open (k.scif_recv_into e a n w) ≡ is_open w
  pub unregister_kept : (e o n : ℕ) (w : k.World) → is_open (k.scif_unregister e o n w) ≡ is_open w

-- What a module has opened, by `endpoint`, `remote_endpoint` and the endpoints that are open: `before`
-- are those that were open when `scif_start` was called.
module _ (before : ℕ → Bool) where
  abbrev pub OpensNone : ℕ → ℕ → (ℕ → Bool) → Type 0
  OpensNone e r o = (e ≡ 0) × (o ≡ before)

  abbrev pub OpensOne : ℕ → ℕ → (ℕ → Bool) → Type 0
  OpensOne e r o = (before e ≡ false) × ((x : ℕ) → o x ≡ ((x == e) || before x))

  abbrev pub OpensTwo : ℕ → ℕ → (ℕ → Bool) → Type 0
  OpensTwo e r o =
      (before e ≡ false)
      × (before r ≡ false)
      × (r ≢ e)
      × ((x : ℕ) → o x ≡ ((x == r) || ((x == e) || before x)))

  abbrev pub Opens : ℕ → ℕ → (ℕ → Bool) → Type 0
  Opens e r o = OpensNone e r o ⊎ OpensOne e r o ⊎ OpensTwo e r o

  -- One endpoint has been left open, which was not open before.
  abbrev pub IsLeft : ℕ → (ℕ → Bool) → Type 0
  IsLeft r o = (before r ≡ false) × ((x : ℕ) → o x ≡ ((x == r) || before x))

closed_two :
    (x e r : ℕ) (b : Bool)
    → r ≢ e
    → (x ≡ e → b ≡ false)
    → (if x == e then false else ((x == r) || ((x == e) || b))) ≡ ((x == r) || b)
closed_two x e r b ne h = elim (ℕ_discrete x e) [
  | yes same ↦ let out = h same in ground (arith, same, out, ne)
  | no other ↦ ground (arith, other)
]

module _ (k : Kernel) (scif : IsScif k) (start : k.World) where
  abbrev before : ℕ → Bool
  before = scif.is_open start

  pub close_two :
      (e r : ℕ) (w : k.World)
      → OpensTwo before e r (scif.is_open w)
      → IsLeft before r (scif.is_open (k.scif_close e w))
  close_two e r w (unused, unused', other, o) = (
    unused',
    (λ x.
        scif.closed e w x
        ∙ ap (λ b. if x == e then false else b) (o x)
        ∙ closed_two x e r (before x) other (λ same. ap before same ∙ unused)),
  )

  -- `scif_close` on `endpoint` leaves none of the endpoints open, or `remote_endpoint` alone.
  pub close_any :
      (e r : ℕ) (w : k.World)
      → Opens before e r (scif.is_open w)
      → ((x : ℕ) → scif.is_open (k.scif_close e w) x ≡ before x)
        ⊎ IsLeft before r (scif.is_open (k.scif_close e w))
  close_any e r w h = elim h [
    | inl (null, o) ↦ inl λ x.
        scif.closed e w x ∙ ap (λ (f : ℕ → Bool). if x == e then false else f x) o ∙ kept x null
    | inr (inl (unused, o)) ↦ inl λ x.
        scif.closed e w x
        ∙ ap (λ b. if x == e then false else b) (o x)
        ∙ put_back x e (before x) (λ same. ap before same ∙ unused)
    | inr (inr two) ↦ inr (close_two e r w two)
  ]
    where
      kept : (x : ℕ) → e ≡ 0 → (if x == e then false else before x) ≡ before x
      kept x null = elim (ℕ_discrete x e) [
        | yes same ↦
            let out : before x ≡ false = ap before (same ∙ null) ∙ scif.null_closed start in
            ground (arith, same, out)
        | no other ↦ ground (arith, other)
      ]
