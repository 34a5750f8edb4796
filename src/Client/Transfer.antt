-- ===== src/Client/Transfer.antt =====
-- What the programs of the card in throughput and latency/readwrite share, as
-- throughput/scif_mic.c writes it: the set-up, a transfer in each direction, the frame of `main`.
use xeon_phi_kernel_integrat.Base.{ℕ}
use xeon_phi_kernel_integrat.Client.Library.{Scif}
use xeon_phi_kernel_integrat.Client.Step.{
  M, ◌>>=◌, ◌>>◌, finish, check, obtain, open_connection, allocate, register, clear_buffer,
  exit_code,
}

-- the local variables of `main`
pub record Link : Type 0 where
  pub endpoint : ℕ
  pub ptr : ℕ
  pub remote_ptr : ℕ

abbrev pub link : ℕ → ℕ → ℕ → Link
link endpoint ptr remote_ptr = record { endpoint = endpoint; ptr = ptr; remote_ptr = remote_ptr }

unfoldable pub run_plain :
    {W S : Type 0} → M W S → (S → M W (Unit {0})) → (S → M W (Unit {0})) → W → ℕ × W
run_plain set_up benchmark tear_down w = exit_code ((set_up >>= λ s. benchmark s >> tear_down s) w)

module _ (lib : Scif) where
  unfoldable pub link_set_up : ℕ → ℕ → M lib.World Link
  link_set_up port len = do
    endpoint ← open_connection lib port
    ptr ← allocate lib len
    clear_buffer lib len ptr
    register lib endpoint ptr len
    remote_ptr ← obtain (lib.scif_recv endpoint)
    finish (link endpoint ptr remote_ptr)

  -- in throughput/scif_kernel.c, where the peer sends a second offset
  unfoldable pub link_set_up_return : ℕ → ℕ → M lib.World (Link × ℕ)
  link_set_up_return port len = do
    endpoint ← open_connection lib port
    ptr ← allocate lib len
    clear_buffer lib len ptr
    register lib endpoint ptr len
    remote_ptr ← obtain (lib.scif_recv endpoint)
    return_ptr ← obtain (lib.scif_recv endpoint)
    finish (link endpoint ptr remote_ptr, return_ptr)

  unfoldable pub read_pass : Link → ℕ → M lib.World (Unit {0})
  read_pass l n = check (lib.scif_readfrom l.endpoint l.ptr n l.remote_ptr)

  unfoldable pub write_pass : Link → ℕ → ℕ → M lib.World (Unit {0})
  write_pass l target n = check (lib.scif_writeto l.endpoint l.ptr n target)
