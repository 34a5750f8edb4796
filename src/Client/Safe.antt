-- ===== src/Client/Safe.antt =====
-- The early returns of the programs: which steps can make one, and after what.
use xeon_phi_kernel_integrat.Base.{ℕ, zero, suc, Bool, true, false, ◌≡◌, ◌≢◌, refl}
use mathlib.Core.Option.{Option, none, some}
use xeon_phi_kernel_integrat.Client.Library.{Scif, Unregistered, done, not_connected, failed}
use xeon_phi_kernel_integrat.Client.Step.{
  Exit, value, returned, M, ◌>>=◌, ◌>>◌, check, obtain, effect, finish, tolerated, retry, connect,
  open_connection, allocate, register, clear_buffer, tear_down,
}
use xeon_phi_kernel_integrat.Client.Rules.{
  Failure, open_failed, bind_failed, connect_failed, memalign_failed, register_failed, recv_failed,
  send_failed, unregister_failed,
}

module _ (lib : Scif) where
  abbrev pub IsFine : {A : Type 0} → Exit A × lib.World → Type 0
  IsFine (value a, w) = Unit {0}
  IsFine (returned c, w) = (c ≡ 1) × Failure lib w

  abbrev pub IsSafe : {A : Type 0} → M lib.World A → Type 0
  IsSafe m = (w : lib.World) → IsFine (m w)

  bound :
      {A B : Type 0} (f : A → M lib.World B) (o : Exit A × lib.World)
      → IsFine o
      → ((a : A) → IsSafe (f a))
      → IsFine {A = B}
          (let (r, w') = o in elim r [ value a ↦ f a w' | returned c ↦ (returned c, w') ])
  bound f (value a, w) h k = k a w
  bound f (returned c, w) h k = h

  pub IsSafe-bind :
      {A B : Type 0} (m : M lib.World A) (f : A → M lib.World B)
      → IsSafe m
      → ((a : A) → IsSafe (f a))
      → IsSafe (m >>= f)
  IsSafe-bind m f h k w = bound f (m w) (h w) k

  pub IsSafe-then :
      {B : Type 0} (m : M lib.World (Unit {0})) (k : M lib.World B)
      → IsSafe m
      → IsSafe k
      → IsSafe (m >> k)
  IsSafe-then m k h g = IsSafe-bind m (λ _. k) h (λ _. g)

  checked :
      (o : Bool × lib.World)
      → (o.0 ≡ false → Failure lib o.1)
      → IsFine {A = Unit {0}}
          (let (ok, w') = o in elim ok [ true ↦ (value tt, w') | false ↦ (returned 1, w') ])
  checked (true, w) h = tt
  checked (false, w) h = (refl, h refl)

  pub IsSafe-check :
      (call : lib.World → Bool × lib.World)
      → ((w : lib.World) → (call w).0 ≡ false → Failure lib (call w).1)
      → IsSafe (check call)
  unfolding check
  IsSafe-check call h w = checked (call w) (h w)

  obtained :
      (o : Option ℕ × lib.World)
      → (o.0 ≡ none → Failure lib o.1)
      → IsFine {A = ℕ}
          (let (a, w') = o in elim a [ some x ↦ (value x, w') | none ↦ (returned 1, w') ])
  obtained (some a, w) h = tt
  obtained (none, w) h = (refl, h refl)

  pub IsSafe-obtain :
      (call : lib.World → Option ℕ × lib.World)
      → ((w : lib.World) → (call w).0 ≡ none → Failure lib (call w).1)
      → IsSafe (obtain call)
  unfolding obtain
  IsSafe-obtain call h w = obtained (call w) (h w)

  pub IsSafe-effect : (call : lib.World → lib.World) → IsSafe (effect call)
  unfolding effect
  IsSafe-effect call w = tt

  pub IsSafe-finish : {A : Type 0} (a : A) → IsSafe {A = A} (finish a)
  IsSafe-finish a w = tt

  retried :
      (port endpoint left : ℕ) (o : Bool × lib.World)
      → (o.0 ≡ false → Failure lib o.1)
      → (retry lib port left endpoint o.0 o.1).0 ≡ false
      → Failure lib (retry lib port left endpoint o.0 o.1).1
  unfolding retry
  retried port endpoint zero (ret, w) h e = h e
  retried port endpoint (suc left) (true, w) h e = h e
  retried port endpoint (suc left) (false, w) h e =
      retried port endpoint left (lib.scif_connect endpoint 0 port (lib.sleep 1 w))
        (connect_failed endpoint 0 port (lib.sleep 1 w)) e

  pub safe_connect :
      (port endpoint : ℕ) (w : lib.World)
      → (connect lib port endpoint w).0 ≡ false
      → Failure lib (connect lib port endpoint w).1
  unfolding connect
  safe_connect port endpoint w e =
      retried port endpoint 10 (lib.scif_connect endpoint 0 port w)
        (connect_failed endpoint 0 port w) e

  pub IsSafe-open_connection : (port : ℕ) → IsSafe (open_connection lib port)
  unfolding open_connection
  IsSafe-open_connection port = IsSafe-bind _ _ (IsSafe-obtain lib.scif_open open_failed) λ e.
      IsSafe-then _ _ (IsSafe-check _ (bind_failed e 23955))
        (IsSafe-then _ (finish e) (IsSafe-check _ (safe_connect port e)) (IsSafe-finish e))

  pub IsSafe-allocate : (n : ℕ) → IsSafe (allocate lib n)
  unfolding allocate
  IsSafe-allocate n = IsSafe-obtain _ (memalign_failed 4096 n)

  pub IsSafe-register : (e a n : ℕ) → IsSafe (register lib e a n)
  unfolding register
  IsSafe-register e a n = IsSafe-check _ (register_failed e a n a)

  pub IsSafe-recv : (e : ℕ) → IsSafe (obtain (lib.scif_recv e))
  IsSafe-recv e = IsSafe-obtain _ (recv_failed e)

  pub IsSafe-clear_buffer : (n a : ℕ) → IsSafe (clear_buffer lib n a)
  unfolding clear_buffer
  IsSafe-clear_buffer n a = IsSafe-effect _

  pub not_done :
      (o : Unregistered × lib.World)
      → elim o.0 [ done ↦ true | not_connected ↦ true | failed ↦ false ] ≡ false
      → o.0 ≢ done
  not_done (done, w) e = λ q. cc
  not_done (not_connected, w) e = λ q. cc
  not_done (failed, w) e = λ q. cc

  pub not_strict :
      (o : Unregistered × lib.World)
      → elim o.0 [ done ↦ true | not_connected ↦ false | failed ↦ false ] ≡ false
      → o.0 ≢ done
  not_strict (done, w) e = λ q. cc
  not_strict (not_connected, w) e = λ q. cc
  not_strict (failed, w) e = λ q. cc

  pub IsSafe-tolerated : (e a n : ℕ) → IsSafe (check (tolerated (lib.scif_unregister e a n)))
  unfolding tolerated
  IsSafe-tolerated e a n =
      IsSafe-check _ (λ w h. unregister_failed e a n w (not_done (lib.scif_unregister e a n w) h))

  pub IsSafe-tear_down : (e a n : ℕ) → IsSafe (tear_down lib e a n)
  unfolding tear_down
  IsSafe-tear_down e a n =
      IsSafe-then _ _ (IsSafe-check _ (send_failed e a))
        (IsSafe-then _ _ (IsSafe-tolerated e a n) (IsSafe-effect (lib.scif_close e)))
