-- ===== src/Client/Checked.antt =====
-- Runs in which each call that can fail has succeeded, and which steps keep to them.
use xeon_phi_kernel_integrat.Base.{ℕ, Bool, true, false, ◌≡◌, ◌≢◌, refl}
use mathlib.Core.Option.{Option, none, some}
use xeon_phi_kernel_integrat.Memory.{Memory}
use xeon_phi_kernel_integrat.Client.Library.{Scif, failed}
use xeon_phi_kernel_integrat.Client.Step.{
  Exit, value, returned, M, ◌>>=◌, ◌>>◌, check, obtain, effect, finish, connect,
}
use xeon_phi_kernel_integrat.Client.Rules.{Failure}

module _ (lib : Scif) (start : lib.World) where
  -- The states of the world that calls lead to from `start`, each of which has succeeded. A
  -- `scif_unregister` may find the peer gone, and `connect` may need several attempts. Calls without an error result count as successful, and so
  -- do `scif_accept` and the calls of the loops of latency/sendrecv, whose results no program reads.
  pub data Clean : lib.World → Type 0 where
    begun : Clean start
    opened :
        (e : ℕ) (w : lib.World) → Clean w → (lib.scif_open w).0 ≡ some e → Clean (lib.scif_open w).1
    bound :
        (e p : ℕ) (w : lib.World)
        → Clean w
        → (lib.scif_bind e p w).0 ≡ true
        → Clean (lib.scif_bind e p w).1
    listened :
        (e n : ℕ) (w : lib.World)
        → Clean w
        → (lib.scif_listen e n w).0 ≡ true
        → Clean (lib.scif_listen e n w).1
    accepted : (e : ℕ) (w : lib.World) → Clean w → Clean (lib.scif_accept e w).1
    connected :
        (port e : ℕ) (w : lib.World)
        → Clean w
        → (connect lib port e w).0 ≡ true
        → Clean (connect lib port e w).1
    aligned :
        (a n p : ℕ) (w : lib.World)
        → Clean w
        → (lib.posix_memalign a n w).0 ≡ some p
        → Clean (lib.posix_memalign a n w).1
    allocated : (n : ℕ) (w : lib.World) → Clean w → Clean (lib.malloc n w).1
    freed : (a : ℕ) (w : lib.World) → Clean w → Clean (lib.free a w)
    registered :
        (e a n o : ℕ) (w : lib.World)
        → Clean w
        → (lib.scif_register e a n o w).0 ≡ true
        → Clean (lib.scif_register e a n o w).1
    sent :
        (e a : ℕ) (w : lib.World)
        → Clean w
        → (lib.scif_send e a w).0 ≡ true
        → Clean (lib.scif_send e a w).1
    received :
        (e a n : ℕ) (w : lib.World)
        → Clean w
        → (lib.scif_recv_at e a n w).0 ≡ true
        → Clean (lib.scif_recv_at e a n w).1
    unregistered :
        (e a n : ℕ) (w : lib.World)
        → Clean w
        → (lib.scif_unregister e a n w).0 ≢ failed
        → Clean (lib.scif_unregister e a n w).1
    send_unread : (e a n : ℕ) (w : lib.World) → Clean w → Clean (lib.scif_send_count e a n w).1
    recv_unread : (e a n : ℕ) (w : lib.World) → Clean w → Clean (lib.scif_recv_count e a n w).1
    closed : (e : ℕ) (w : lib.World) → Clean w → Clean (lib.scif_close e w)
    slept : (n : ℕ) (w : lib.World) → Clean w → Clean (lib.sleep n w)
    drawn : (w : lib.World) → Clean w → Clean (lib.rand w).1
    written : (m : Memory) (w : lib.World) → Clean w → Clean (lib.write_local m w)

  -- A part that goes on has made no call that failed; one that returns gives 1, right after one.
  abbrev pub Ends : {A : Type 0} → Exit A × lib.World → Type 0
  Ends (value a, w) = Clean w
  Ends (returned c, w) = (c ≡ 1) × Failure lib w

  abbrev pub IsChecked : {A : Type 0} → M lib.World A → Type 0
  IsChecked m = (w : lib.World) → Clean w → Ends (m w)

  after :
      {A B : Type 0} (f : A → M lib.World B) (o : Exit A × lib.World)
      → Ends o
      → ((a : A) → IsChecked (f a))
      → Ends {A = B} (let (r, w) = o in elim r [ value a ↦ f a w | returned c ↦ (returned c, w) ])
  after f (value a, w) q h = h a w q
  after f (returned c, w) q h = q

  pub IsChecked-bind :
      {A B : Type 0} (m : M lib.World A) (f : A → M lib.World B)
      → IsChecked m
      → ((a : A) → IsChecked (f a))
      → IsChecked (m >>= f)
  IsChecked-bind m f g h w c = after f (m w) (g w c) h

  pub IsChecked-then :
      {B : Type 0} (m : M lib.World (Unit {0})) (k : M lib.World B)
      → IsChecked m
      → IsChecked k
      → IsChecked (m >> k)
  IsChecked-then m k g h = IsChecked-bind m (λ _. k) g (λ _. h)

  judged :
      (o : Bool × lib.World)
      → (o.0 ≡ true → Clean o.1)
      → (o.0 ≡ false → Failure lib o.1)
      → Ends {A = Unit {0}}
          (let (ok, w) = o in elim ok [ true ↦ (value tt, w) | false ↦ (returned 1, w) ])
  judged (true, w) h f = h refl
  judged (false, w) h f = (refl, f refl)

  pub IsChecked-check :
      (call : lib.World → Bool × lib.World)
      → ((w : lib.World) → Clean w → (call w).0 ≡ true → Clean (call w).1)
      → ((w : lib.World) → (call w).0 ≡ false → Failure lib (call w).1)
      → IsChecked (check call)
  unfolding check
  IsChecked-check call h f w c = judged (call w) (h w c) (f w)

  obtained :
      (o : Option ℕ × lib.World)
      → ((a : ℕ) → o.0 ≡ some a → Clean o.1)
      → (o.0 ≡ none → Failure lib o.1)
      → Ends {A = ℕ} (let (a, w) = o in elim a [ some x ↦ (value x, w) | none ↦ (returned 1, w) ])
  obtained (some a, w) h f = h a refl
  obtained (none, w) h f = (refl, f refl)

  pub IsChecked-obtain :
      (call : lib.World → Option ℕ × lib.World)
      → ((w : lib.World) → Clean w → (a : ℕ) → (call w).0 ≡ some a → Clean (call w).1)
      → ((w : lib.World) → (call w).0 ≡ none → Failure lib (call w).1)
      → IsChecked (obtain call)
  unfolding obtain
  IsChecked-obtain call h f w c = obtained (call w) (h w c) (f w)

  pub IsChecked-effect :
      (call : lib.World → lib.World)
      → ((w : lib.World) → Clean w → Clean (call w))
      → IsChecked (effect call)
  unfolding effect
  IsChecked-effect call h = h

  pub IsChecked-finish : {A : Type 0} (a : A) → IsChecked {A = A} (finish a)
  IsChecked-finish a w c = c
