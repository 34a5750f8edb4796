-- ===== src/Client/SetUp.antt =====
-- What the programs of the card do before their loops: the connection, the buffers, and the two
-- offsets that the host sends.
use xeon_phi_kernel_integrat.Base.{ℕ}
use xeon_phi_kernel_integrat.Client.Library.{Scif}
use xeon_phi_kernel_integrat.Client.Step.{
  M, ◌>>=◌, ◌>>◌, finish, obtain, open_connection, allocate, register, clear_buffer,
}
use xeon_phi_kernel_integrat.Client.Session.{Session, session}

module _ (lib : Scif) (port len : ℕ) where
  -- in openmpmic/scif_mic.c, where `tempbuffer` is not registered
  unfoldable pub set_up : M lib.World Session
  set_up = do
    endpoint ← open_connection lib port
    ptr ← allocate lib len
    clear_buffer lib len ptr
    register lib endpoint ptr len
    tempbuffer ← allocate lib len
    outbuffer ← allocate lib len
    register lib endpoint outbuffer len
    remote_ptr ← obtain (lib.scif_recv endpoint)
    return_ptr ← obtain (lib.scif_recv endpoint)
    finish (session endpoint ptr tempbuffer outbuffer remote_ptr return_ptr)

  -- in openmpmic/scif_kernel.c, where it is
  unfoldable pub set_up_registered : M lib.World Session
  set_up_registered = do
    endpoint ← open_connection lib port
    ptr ← allocate lib len
    clear_buffer lib len ptr
    register lib endpoint ptr len
    tempbuffer ← allocate lib len
    register lib endpoint tempbuffer len
    outbuffer ← allocate lib len
    register lib endpoint outbuffer len
    remote_ptr ← obtain (lib.scif_recv endpoint)
    return_ptr ← obtain (lib.scif_recv endpoint)
    finish (session endpoint ptr tempbuffer outbuffer remote_ptr return_ptr)
