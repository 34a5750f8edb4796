-- ===== src/Client/Host.antt =====
-- What the programs of the host do, as openmpmic/scif_host.c writes it.
use xeon_phi_kernel_integrat.Base.{ℕ, zero, suc, ◌+◌, ◌%◌, Bool, true, ◌&&◌, ◌==◌, if◌then◌else◌}
use xeon_phi_kernel_integrat.Memory.{Memory}
use xeon_phi_kernel_integrat.Client.Library.{Scif}
use xeon_phi_kernel_integrat.Client.Step.{
  M, ◌>>=◌, ◌>>◌, value, finish, check, obtain, strict, tolerated, register,
}

-- the local variables of `main`
pub record Host : Type 0 where
  pub endpoint : ℕ
  pub new_endpoint : ℕ
  pub ptr : ℕ
  pub return_ptr : ℕ

abbrev pub host : ℕ → ℕ → ℕ → ℕ → Host
host endpoint new_endpoint ptr return_ptr = record {
  endpoint = endpoint;
  new_endpoint = new_endpoint;
  ptr = ptr;
  return_ptr = return_ptr;
}

-- `buffer[i] = v`
unfoldable pub store8 : ℕ → ℕ → Memory → Memory
store8 a v m x = if x == a then v else m x

-- `memcmp(a, b, n) == 0`
unfoldable pub same_bytes : ℕ → ℕ → ℕ → Memory → Bool
same_bytes zero a b m = true
same_bytes (suc n) a b m = (m (a + n) == m (b + n)) && same_bytes n a b m

module _ (lib : Scif) where
  -- A loop that stores a byte that it makes of each `rand()`, from round `i` on, with `left` rounds to
  -- go.
  unfoldable pub random_from : (ℕ → ℕ) → ℕ → ℕ → ℕ → lib.World → lib.World
  random_from byte_of zero i buffer w = w
  random_from byte_of (suc left) i buffer w =
      let (r, w') = lib.rand w in
      random_from byte_of left (i + 1) buffer
        (lib.write_local (store8 (buffer + i) (byte_of r) (lib.local_memory w')) w')

  -- `randombuffer`
  unfoldable pub random_buffer : ℕ → ℕ → lib.World → lib.World
  random_buffer size buffer = random_from (λ r. r % 10) size 0 buffer

  -- `scif_accept`, whose result the programs do not look at
  unfoldable pub accept : ℕ → M lib.World ℕ
  accept endpoint w =
      let (new_endpoint, w') = lib.scif_accept endpoint w in (value new_endpoint, w')

  -- from `scif_open` to the connection
  unfoldable pub listen : ℕ → M lib.World (ℕ × ℕ)
  listen port = do
    endpoint ← obtain lib.scif_open
    check (lib.scif_bind endpoint port)
    check (lib.scif_listen endpoint 4)
    new_endpoint ← accept endpoint
    finish (endpoint, new_endpoint)

  -- the two buffers registered, and their offsets sent to the card
  unfoldable pub share : Host → ℕ → M lib.World (Unit {0})
  share h n = do
    register lib h.new_endpoint h.ptr n
    register lib h.new_endpoint h.return_ptr n
    check (lib.scif_send h.new_endpoint h.ptr)
    check (lib.scif_send h.new_endpoint h.return_ptr)

  -- the two windows given up
  unfoldable pub unshare : Host → ℕ → M lib.World (Unit {0})
  unshare h n = do
    check (tolerated (lib.scif_unregister h.new_endpoint h.ptr n))
    check (strict (lib.scif_unregister h.new_endpoint h.return_ptr n))
