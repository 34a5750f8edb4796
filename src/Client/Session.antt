-- ===== src/Client/Session.antt =====
-- The local variables of a `main` that encrypts and decrypts over SCIF, named as in
-- openmpmic/scif_mic.c.
use xeon_phi_kernel_integrat.Base.{ℕ}

pub record Session : Type 0 where
  pub endpoint : ℕ
  pub ptr : ℕ
  pub tempbuffer : ℕ
  pub outbuffer : ℕ
  pub remote_ptr : ℕ
  pub return_ptr : ℕ

abbrev pub session : ℕ → ℕ → ℕ → ℕ → ℕ → ℕ → Session
session endpoint ptr tempbuffer outbuffer remote_ptr return_ptr = record {
  endpoint = endpoint;
  ptr = ptr;
  tempbuffer = tempbuffer;
  outbuffer = outbuffer;
  remote_ptr = remote_ptr;
  return_ptr = return_ptr;
}
