-- ===== src/Client/Library.antt =====
-- What the programs call and do not implement: the SCIF library, the C library, and the runtimes of
-- OpenMP and Cilk. They are a parameter, over a state of the world that the calls change.
use xeon_phi_kernel_integrat.Base.{ℕ, ◌+◌, ◌%◌, ◌≤◌, ◌<◌, List, ◌≡◌, ◌⊎◌, Bool, true}
use mathlib.Core.Option.{Option}
use xeon_phi_kernel_integrat.Memory.{Memory}
use xeon_phi_kernel_integrat.Memory.Loop.{IsOrder}

-- what `scif_unregister` reports: 0, -1 with errno ENOTCONN, or -1 with another errno
pub data Unregistered : Type 0 where
  done : Unregistered
  not_connected : Unregistered
  failed : Unregistered

-- The calls, seen from one program. `none` is a call that fails and gives no value, `false` one that
-- returns an error. `scif_recv` receives eight bytes into a variable, `scif_recv_at` any number of
-- bytes to an address. The calls in `_count` are the same with the number of bytes that they return.
-- Offsets are those of `SCIF_MAP_FIXED`, by which a window's offset is its
-- address. `scif_accept` gives what is in `new_endpoint` after the call.
pub record Scif : Type 1 where
  pub World : Type 0
  pub local_memory : World → Memory
  pub peer_memory : World → Memory
  pub write_local : Memory → World → World
  pub scif_open : World → Option ℕ × World
  pub scif_bind : ℕ → ℕ → World → Bool × World
  pub scif_listen : ℕ → ℕ → World → Bool × World
  pub scif_accept : ℕ → World → ℕ × World
  pub scif_connect : ℕ → ℕ → ℕ → World → Bool × World
  pub posix_memalign : ℕ → ℕ → World → Option ℕ × World
  pub malloc : ℕ → World → ℕ × World
  pub free : ℕ → World → World
  pub scif_register : ℕ → ℕ → ℕ → ℕ → World → Bool × World
  pub scif_recv : ℕ → World → Option ℕ × World
  pub scif_recv_at : ℕ → ℕ → ℕ → World → Bool × World
  pub scif_recv_count : ℕ → ℕ → ℕ → World → Option ℕ × World
  pub scif_send : ℕ → ℕ → World → Bool × World
  pub scif_send_count : ℕ → ℕ → ℕ → World → Option ℕ × World
  pub scif_readfrom : ℕ → ℕ → ℕ → ℕ → World → Bool × World
  pub scif_writeto : ℕ → ℕ → ℕ → ℕ → World → Bool × World
  pub scif_unregister : ℕ → ℕ → ℕ → World → Unregistered × World
  pub scif_close : ℕ → World → World
  pub sleep : ℕ → World → World
  pub rand : World → ℕ × World
  pub loop_order : ℕ → World → List ℕ

-- The memory after `n` bytes from `from` in `source` were copied to `to` in `target`.
pub record IsCopied (target source result : Memory) (to from n : ℕ) : Type 0 where
  pub copied : (i : ℕ) → i < n → result (to + i) ≡ source (from + i)
  pub others : (x : ℕ) → (x < to) ⊎ (to + n ≤ x) → result x ≡ target x

-- The documented behaviour that the theorems rely on. `scif_readfrom(epd, loffset, len, roffset)`
-- with SCIF_RMA_SYNC copies from the peer when it returns 0, `scif_writeto` copies to the peer;
-- neither changes the memory that it reads. `scif_recv` writes to its buffer alone. A parallel loop makes each of its rounds. `rand`,
-- `scif_unregister` and `scif_close` leave the program's buffers alone.
pub record IsDocumented (lib : Scif) : Type 0 where
  pub local_written : (m : Memory) (w : lib.World) → lib.local_memory (lib.write_local m w) ≡ m
  pub peer_kept :
      (m : Memory) (w : lib.World) → lib.peer_memory (lib.write_local m w) ≡ lib.peer_memory w
  pub readfrom_local :
      (e to n from : ℕ) (w : lib.World)
      → (lib.scif_readfrom e to n from w).0 ≡ true
      → IsCopied
          (lib.local_memory w)
          (lib.peer_memory w)
          (lib.local_memory (lib.scif_readfrom e to n from w).1)
          to
          from
          n
  pub readfrom_peer :
      (e to n from : ℕ) (w : lib.World)
      → lib.peer_memory (lib.scif_readfrom e to n from w).1 ≡ lib.peer_memory w
  pub writeto_peer :
      (e from n to : ℕ) (w : lib.World)
      → (lib.scif_writeto e from n to w).0 ≡ true
      → IsCopied
          (lib.peer_memory w)
          (lib.local_memory w)
          (lib.peer_memory (lib.scif_writeto e from n to w).1)
          to
          from
          n
  pub writeto_local :
      (e from n to : ℕ) (w : lib.World)
      → lib.local_memory (lib.scif_writeto e from n to w).1 ≡ lib.local_memory w
  pub rounds : (n : ℕ) (w : lib.World) → n % 16 ≡ 0 → IsOrder n (lib.loop_order n w)
  pub rand_local : (w : lib.World) → lib.local_memory (lib.rand w).1 ≡ lib.local_memory w
  pub unregister_local :
      (e a n : ℕ) (w : lib.World)
      → lib.local_memory (lib.scif_unregister e a n w).1 ≡ lib.local_memory w
  pub recv_at_local :
      (e a n : ℕ) (w : lib.World) (x : ℕ)
      → (x < a) ⊎ (a + n ≤ x)
      → lib.local_memory (lib.scif_recv_at e a n w).1 x ≡ lib.local_memory w x
  pub close_local :
      (e : ℕ) (w : lib.World) → lib.local_memory (lib.scif_close e w) ≡ lib.local_memory w
