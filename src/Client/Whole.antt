-- ===== src/Client/Whole.antt =====
-- The whole `main` of a program that encrypts and decrypts over SCIF.
use xeon_phi_kernel_integrat.Base.{ℕ, List, ◌≡◌, ◌⊎◌, inl, inr, refl}
use xeon_phi_kernel_integrat.Aes.Context.{CryptoTfm}
use xeon_phi_kernel_integrat.Aes.KeySchedule.{crypto_aes_set_key}
use xeon_phi_kernel_integrat.Client.Library.{Scif}
use xeon_phi_kernel_integrat.Client.Step.{Exit, value, returned, M, ◌>>=◌, ◌>>◌, finish, exit_code}
use xeon_phi_kernel_integrat.Client.Session.{session}
use xeon_phi_kernel_integrat.Client.Crypt.{run_main}
use xeon_phi_kernel_integrat.Client.SetUp.{set_up, set_up_registered}
use xeon_phi_kernel_integrat.Client.Rules.{Failure, Post}
use xeon_phi_kernel_integrat.Client.Safe.{
  IsFine, IsSafe, IsSafe-bind, IsSafe-then, IsSafe-finish, IsSafe-open_connection, IsSafe-allocate,
  IsSafe-register, IsSafe-recv, IsSafe-clear_buffer,
}

pub IsSafe-set_up : (lib : Scif) (port len : ℕ) → IsSafe lib (set_up lib port len)
unfolding set_up
IsSafe-set_up lib port len = IsSafe-bind lib _ _ (IsSafe-open_connection lib port) λ e.
    IsSafe-bind lib _ _ (IsSafe-allocate lib len) λ p.
      IsSafe-then lib _ _ (IsSafe-clear_buffer lib len p) (
        IsSafe-then lib _ _ (IsSafe-register lib e p len) (
          IsSafe-bind lib _ _ (IsSafe-allocate lib len) λ t.
            IsSafe-bind lib _ _ (IsSafe-allocate lib len) λ o.
              IsSafe-then lib _ _ (IsSafe-register lib e o len) (
                IsSafe-bind lib _ _ (IsSafe-recv lib e) λ r.
                  IsSafe-bind lib _ (λ b. finish (session e p t o r b)) (IsSafe-recv lib e)
                    λ b. IsSafe-finish lib (session e p t o r b))))

pub IsSafe-set_up_registered :
    (lib : Scif) (port len : ℕ) → IsSafe lib (set_up_registered lib port len)
unfolding set_up_registered
IsSafe-set_up_registered lib port len = IsSafe-bind lib _ _ (IsSafe-open_connection lib port) λ e.
    IsSafe-bind lib _ _ (IsSafe-allocate lib len) λ p.
      IsSafe-then lib _ _ (IsSafe-clear_buffer lib len p) (
        IsSafe-then lib _ _ (IsSafe-register lib e p len) (
          IsSafe-bind lib _ _ (IsSafe-allocate lib len) λ t.
            IsSafe-then lib _ _ (IsSafe-register lib e t len) (
              IsSafe-bind lib _ _ (IsSafe-allocate lib len) λ o.
                IsSafe-then lib _ _ (IsSafe-register lib e o len) (
                  IsSafe-bind lib _ _ (IsSafe-recv lib e) λ r.
                    IsSafe-bind lib _ (λ b. finish (session e p t o r b)) (IsSafe-recv lib e)
                      λ b. IsSafe-finish lib (session e p t o r b)))))

-- `main` came through its loops: it set up `locals`, and `Served` holds between the worlds before
-- and after its loops.
pub record IsServed (lib : Scif) {S : Type 0} (Served : S → lib.World → lib.World → Type 0)
    (start : M lib.World S) (loops : S → M lib.World (Unit {0})) (w : lib.World) : Type 0 where
  pub locals : S
  pub ready : lib.World
  pub end : lib.World
  pub started : start w ≡ (value locals, ready)
  pub ended : loops locals ready ≡ (value tt, end)
  pub served : Served locals ready end

-- `main` from its three parts.
module _ (lib : Scif) {S : Type 0} (Served : S → lib.World → lib.World → Type 0)
    (start : M lib.World S) (loops stop : S → M lib.World (Unit {0})) where
  -- A program that returns 0 has run loops that `Served` describes; one that returns 1 stops in a
  -- state of the world that a failed call of the library has just left.
  abbrev pub Finished : lib.World → ℕ × lib.World → Type 0
  Finished w (c, w') = ((c ≡ 0) × IsServed lib Served start loops w) ⊎ ((c ≡ 1) × Failure lib w')

  stopped :
      (w : lib.World) (o : Exit (Unit {0}) × lib.World)
      → IsServed lib Served start loops w
      → IsFine lib o
      → Finished w (exit_code o)
  unfolding exit_code
  stopped w (value a, w') served h = inl (refl, served)
  stopped w (returned c, w') served h = inr h

  looped :
      (w : lib.World) (s : S) (w1 : lib.World) (o : Exit (Unit {0}) × lib.World)
      → start w ≡ (value s, w1)
      → loops s w1 ≡ o
      → Post lib (Failure lib) (Served s w1) o
      → ((w' : lib.World) → IsFine lib (stop s w'))
      → Finished w (
          exit_code {W = lib.World} {A = Unit {0}}
            (let (r, w') = o in elim r [ value _ ↦ stop s w' | returned c ↦ (returned c, w') ]))
  unfolding exit_code
  looped w s w1 (value a, w2) e e' back h =
      stopped w (stop s w2)
        (record { locals = s; ready = w1; end = w2; started = e; ended = e'; served = back }) (h w2)
  looped w s w1 (returned c, w2) e e' f h = inr f

  begun :
      (w : lib.World) (o : Exit S × lib.World)
      → start w ≡ o
      → IsFine lib o
      → ((s : S) (w1 : lib.World)
          → start w ≡ (value s, w1)
          → Post lib (Failure lib) (Served s w1) (loops s w1))
      → ((s : S) (w' : lib.World) → IsFine lib (stop s w'))
      → Finished w (
          exit_code {W = lib.World} {A = Unit {0}} (
            let (r, w') = o in
            elim r [ value s ↦ (loops s >> stop s) w' | returned c ↦ (returned c, w') ]))
  unfolding exit_code
  begun w (value s, w1) e fine back h = looped w s w1 (loops s w1) e refl (back s w1 e) (h s)
  begun w (returned c, w1) e fine back h = inr fine

  -- `main` as a whole, from what holds of its parts.
  pub finished :
      (w : lib.World)
      → IsFine lib (start w)
      → ((s : S) (w1 : lib.World)
          → start w ≡ (value s, w1)
          → Post lib (Failure lib) (Served s w1) (loops s w1))
      → ((s : S) (w' : lib.World) → IsFine lib (stop s w'))
      → Finished w (exit_code ((start >>= λ s. loops s >> stop s) w))
  finished w fine back h = begun w (start w) refl fine back h

-- The same for a `main` that first expands a key.
module _ (lib : Scif) {S : Type 0} (Served : S → lib.World → lib.World → Type 0) (key_len : ℕ)
    (start : M lib.World S) (loops : CryptoTfm → S → M lib.World (Unit {0}))
    (stop : S → M lib.World (Unit {0})) (tfm : CryptoTfm) (in_key : List ℕ) where
  abbrev keyed : CryptoTfm
  keyed = (crypto_aes_set_key tfm in_key key_len).0

  abbrev pub Outcome : lib.World → ℕ × lib.World → Type 0
  Outcome w o = Finished lib Served start (loops keyed) stop w o

  pub whole :
      (w : lib.World)
      → IsFine lib (start w)
      → ((s : S) (w1 : lib.World)
          → start w ≡ (value s, w1)
          → Post lib (Failure lib) (Served s w1) (loops keyed s w1))
      → ((s : S) (w' : lib.World) → IsFine lib (stop s w'))
      → Outcome w (run_main key_len start loops stop tfm in_key w)
  unfolding run_main
  whole w fine back h = finished lib Served start (loops keyed) stop w fine back h
