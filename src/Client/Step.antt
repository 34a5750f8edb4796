-- ===== src/Client/Step.antt =====
-- The steps that the `main` of each program is made of. They are those of openmpmic/scif_mic.c, which
-- the others repeat.
use xeon_phi_kernel_integrat.Base.{
  ℕ, zero, suc, ◌+◌, ◌*◌, ◌/◌, List, [], ◌∷◌, ◌++◌, Bool, true, false, ltb, if◌then◌else◌,
}
use mathlib.Core.Option.{Option, none, some}
use xeon_phi_kernel_integrat.Memory.{Memory, parallel_for}
use xeon_phi_kernel_integrat.Client.Library.{Scif, Unregistered, done, not_connected, failed}

-- How a part of `main` ends: it goes on with a value, or `main` returns.
pub data Exit (A : Type 0) : Type 0 where
  value : A → Exit A
  returned : ℕ → Exit A

abbrev pub M : Type 0 → Type 0 → Type 0
M W A = W → Exit A × W

infixl 5 ◌>>=◌ ◌>>◌
abbrev pub ◌>>=◌ : {W A B : Type 0} → M W A → (A → M W B) → M W B
◌>>=◌ m f w = let (r, w') = m w in elim r [ value a ↦ f a w' | returned c ↦ (returned c, w') ]

abbrev pub ◌>>◌ : {W B : Type 0} → M W (Unit {0}) → M W B → M W B
m >> k = m >>= λ _. k

-- A program that has nothing more to do.
abbrev pub finish : {W A : Type 0} → A → M W A
finish a w = (value a, w)

-- `if (call == -1) { …; return 1; }`
unfoldable pub check : {W : Type 0} → (W → Bool × W) → M W (Unit {0})
check call w = let (ok, w') = call w in elim ok [ true ↦ (value tt, w') | false ↦ (returned 1, w') ]

-- the same for a call that gives a value
unfoldable pub obtain : {W : Type 0} → (W → Option ℕ × W) → M W ℕ
obtain call w = let (o, w') = call w in elim o [ some a ↦ (value a, w') | none ↦ (returned 1, w') ]

-- a call that cannot fail
unfoldable pub effect : {W : Type 0} → (W → W) → M W (Unit {0})
effect call w = (value tt, call w)

-- `ret == -1 && errno != ENOTCONN`
unfoldable pub tolerated : {W : Type 0} → (W → Unregistered × W) → W → Bool × W
tolerated call w =
    let (r, w') = call w in (elim r [ done ↦ true | not_connected ↦ true | failed ↦ false ], w')

-- `ret == -1`
unfoldable pub strict : {W : Type 0} → (W → Unregistered × W) → W → Bool × W
strict call w =
    let (r, w') = call w in (elim r [ done ↦ true | not_connected ↦ false | failed ↦ false ], w')

-- `for (j = 1; j < n + 1; j++)`
unfoldable pub repeat : {W : Type 0} → ℕ → M W (Unit {0}) → M W (Unit {0})
repeat zero body = effect (λ w. w)
repeat (suc n) body = body >> repeat n body

-- `for (i = 0; i < 10; i++)` over an array of sizes, with `times` rounds of an inner loop
unfoldable pub for_sizes : {W : Type 0} → ℕ → List ℕ → (ℕ → M W (Unit {0})) → M W (Unit {0})
for_sizes times [] pass = effect (λ w. w)
for_sizes times (n ∷ ns) pass = repeat times (pass n) >> for_sizes times ns pass

-- the exit code of a program; a `main` that ends with no `return` gives 0
unfoldable pub exit_code : {W A : Type 0} → Exit A × W → ℕ × W
exit_code (value _, w) = (0, w)
exit_code (returned c, w) = (c, w)

-- `memset(a, 0, n)`
unfoldable pub clear : ℕ → ℕ → Memory → Memory
clear n a m x = if ltb x a then m x else if ltb x (a + n) then 0 else m x

-- the rounds of `for (k = 0; k < size; k += 16)`, in order
unfoldable pub in_order : ℕ → List ℕ
in_order zero = []
in_order (suc blocks) = in_order blocks ++ (16 * blocks ∷ [])

module _ (lib : Scif) where
  -- `for (attempt = 0; ret == -1 && attempt < 10; ++attempt) { sleep(1); ret = scif_connect(…); }`
  unfoldable pub retry : ℕ → ℕ → ℕ → Bool → lib.World → Bool × lib.World
  retry port zero endpoint ret w = (ret, w)
  retry port (suc left) endpoint true w = (true, w)
  retry port (suc left) endpoint false w =
      let (ret, w') = lib.scif_connect endpoint 0 port (lib.sleep 1 w) in
      retry port left endpoint ret w'

  unfoldable pub connect : ℕ → ℕ → lib.World → Bool × lib.World
  connect port endpoint w =
      let (ret, w') = lib.scif_connect endpoint 0 port w in retry port 10 endpoint ret w'

  -- from `scif_open` to the connection
  unfoldable pub open_connection : ℕ → M lib.World ℕ
  open_connection port = do
    endpoint ← obtain lib.scif_open
    check (lib.scif_bind endpoint 23955)
    check (connect port endpoint)
    finish endpoint

  -- `posix_memalign(&a, align, n)` with `align` 4096
  unfoldable pub allocate : ℕ → M lib.World ℕ
  allocate n = obtain (lib.posix_memalign 4096 n)

  -- `scif_register(endpoint, a, n, (long)a, …, SCIF_MAP_FIXED)`
  unfoldable pub register : ℕ → ℕ → ℕ → M lib.World (Unit {0})
  register endpoint a n = check (lib.scif_register endpoint a n a)

  -- `memset` on the program's own memory
  unfoldable pub clear_buffer : ℕ → ℕ → M lib.World (Unit {0})
  clear_buffer n a = effect (λ w. lib.write_local (clear n a (lib.local_memory w)) w)

  -- a parallel loop of `size / 16` rounds on the program's own memory
  unfoldable pub compute : ℕ → (ℕ → Memory → Memory) → M lib.World (Unit {0})
  compute size body =
      effect
        (λ w. lib.write_local (parallel_for (lib.loop_order size w) body (lib.local_memory w)) w)

  -- the same loop without `#pragma omp parallel for`
  unfoldable pub compute_in_order : ℕ → (ℕ → Memory → Memory) → M lib.World (Unit {0})
  compute_in_order size body =
      effect
        (λ w. lib.write_local (parallel_for (in_order (size / 16)) body (lib.local_memory w)) w)

  -- from `scif_send` to the end: an endpoint that the peer has already closed is no error
  unfoldable pub tear_down : ℕ → ℕ → ℕ → M lib.World (Unit {0})
  tear_down endpoint ptr n = do
    check (lib.scif_send endpoint ptr)
    check (tolerated (lib.scif_unregister endpoint ptr n))
    effect (lib.scif_close endpoint)
