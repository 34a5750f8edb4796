-- ===== src/Module/Heap.antt =====
-- The buffers that a kernel module takes from the kernel's allocator, and what it can hold of them.
use xeon_phi_kernel_integrat.Base.{
  ℕ, ◌<◌, Bool, true, false, ◌||◌, ◌==◌, if◌then◌else◌, ◌≡◌, ◌≢◌, ◌⊎◌,
}
use xeon_phi_kernel_integrat.Module.Start.{Kernel}

-- The documented behaviour that the theorems rely on, for `vmalloc` and `vfree` or for `kmalloc` and
-- `kfree`. `owns` says which buffers the module has been handed by its own calls of `alloc` and has not
-- given back. Memory that other parts of the kernel take, such as what the SCIF driver allocates for
-- endpoints and windows, is not counted. `alloc` gives a null pointer, or a buffer that the module does
-- not hold; `free` gives a held buffer back, and does nothing to a null pointer; the calls of SCIF
-- neither hand the module a buffer nor give one of its buffers back.
pub record IsHeap (k : Kernel) (alloc : ℕ → k.World → ℕ × k.World) (free : ℕ → k.World → k.World)
    : Type 0 where
  pub owns : k.World → ℕ → Bool
  pub allocated :
      (n : ℕ) (w : k.World)
      → let (a, w') = alloc n w in
        ((a ≡ 0) × (owns w' ≡ owns w))
        ⊎ ((0 < a) × (owns w a ≡ false) × ((x : ℕ) → owns w' x ≡ ((x == a) || owns w x)))
  pub freed :
      (a : ℕ) (w : k.World)
      → 0 < a
      → owns w a ≡ true
      → (x : ℕ) → owns (free a w) x ≡ (if x == a then false else owns w x)
  pub freed_null : (w : k.World) → owns (free 0 w) ≡ owns w
  pub open_kept : (w : k.World) → owns (k.scif_open w).1 ≡ owns w
  pub bind_kept : (e p : ℕ) (w : k.World) → owns (k.scif_bind e p w).1 ≡ owns w
  pub listen_kept : (e n : ℕ) (w : k.World) → owns (k.scif_listen e n w).1 ≡ owns w
  pub accept_kept : (e : ℕ) (w : k.World) → owns (k.scif_accept e w).1 ≡ owns w
  pub random_kept : (a n : ℕ) (w : k.World) → owns (k.get_random_bytes a n w) ≡ owns w
  pub register_kept : (e a n o : ℕ) (w : k.World) → owns (k.scif_register e a n o w).1 ≡ owns w
  pub send_kept : (e v : ℕ) (w : k.World) → owns (k.scif_send e v w).1 ≡ owns w
  pub recv_kept : (e : ℕ) (w : k.World) → owns (k.scif_recv e w).1 ≡ owns w
  pub send_from_kept : (e a n : ℕ) (w : k.World) → owns (k.scif_send_from e a n w) ≡ owns w
  pub recv_into_kept : (e a n : ℕ) (w : k.World) → owns (k.scif_recv_into e a n w) ≡ owns w
  pub unregister_kept : (e o n : ℕ) (w : k.World) → owns (k.scif_unregister e o n w) ≡ owns w
  pub close_kept : (e : ℕ) (w : k.World) → owns (k.scif_close e w) ≡ owns w

-- What a module holds, by `ptr`, `return_ptr` and its buffers: `before` are the buffers it held when
-- `scif_start` was called.
module _ (before : ℕ → Bool) where
  abbrev pub HoldsNone : ℕ → ℕ → (ℕ → Bool) → Type 0
  HoldsNone p r o = (p ≡ 0) × (r ≡ 0) × (o ≡ before)

  abbrev pub HoldsOne : ℕ → ℕ → (ℕ → Bool) → Type 0
  HoldsOne p r o = (0 < p) × (r ≡ 0) × (before p ≡ false) × ((x : ℕ) → o x ≡ ((x == p) || before x))

  abbrev pub HoldsTwo : ℕ → ℕ → (ℕ → Bool) → Type 0
  HoldsTwo p r o =
      (0 < p)
      × (0 < r)
      × (before p ≡ false)
      × (before r ≡ false)
      × (r ≢ p)
      × ((x : ℕ) → o x ≡ ((x == r) || ((x == p) || before x)))

  abbrev pub Holds : ℕ → ℕ → (ℕ → Bool) → Type 0
  Holds p r o = HoldsNone p r o ⊎ HoldsOne p r o ⊎ HoldsTwo p r o
