-- ===== src/Client/CheckedSteps.antt =====
-- The steps that the programs share keep to the runs of Client/Checked.
use xeon_phi_kernel_integrat.Base.{ℕ, zero, suc, ◌+◌, ◌%◌, true, false, ◌≡◌, ◌≢◌}
use xeon_phi_kernel_integrat.Client.Library.{Scif, Unregistered, done, not_connected, failed}
use xeon_phi_kernel_integrat.Client.Step.{
  check, obtain, effect, finish, tolerated, strict, open_connection, allocate, register,
}
use xeon_phi_kernel_integrat.Client.Host.{
  Host, store8, random_from, random_buffer, accept, listen, share, unshare,
}
use xeon_phi_kernel_integrat.Client.Rules.{
  open_failed, bind_failed, listen_failed, memalign_failed, register_failed, recv_at_failed,
  send_failed, unregister_failed,
}
use xeon_phi_kernel_integrat.Client.Safe.{safe_connect, not_done, not_strict}
use xeon_phi_kernel_integrat.Client.Checked.{
  Clean, opened, bound, listened, accepted, connected, aligned, registered, sent, received,
  unregistered, drawn, written, IsChecked, IsChecked-bind, IsChecked-then, IsChecked-check,
  IsChecked-obtain, IsChecked-effect, IsChecked-finish,
}

not_failed :
    (r : Unregistered)
    → elim r [ done ↦ true | not_connected ↦ true | failed ↦ false ] ≡ true
    → r ≢ failed
not_failed done e = λ q. cc
not_failed not_connected e = λ q. cc
not_failed failed e = λ q. cc

not_failed_strict :
    (r : Unregistered)
    → elim r [ done ↦ true | not_connected ↦ false | failed ↦ false ] ≡ true
    → r ≢ failed
not_failed_strict done e = λ q. cc
not_failed_strict not_connected e = λ q. cc
not_failed_strict failed e = λ q. cc

module _ (lib : Scif) (start : lib.World) where
  IsChecked-open : IsChecked lib start (obtain lib.scif_open)
  IsChecked-open =
      IsChecked-obtain lib start lib.scif_open (λ w c e some. opened e w c some) open_failed

  IsChecked-scif_bind : (e p : ℕ) → IsChecked lib start (check (lib.scif_bind e p))
  IsChecked-scif_bind e p = IsChecked-check lib start _ (bound e p) (bind_failed e p)

  pub IsChecked-open_connection : (port : ℕ) → IsChecked lib start (open_connection lib port)
  unfolding open_connection
  IsChecked-open_connection port = IsChecked-bind lib start _ _ IsChecked-open λ e.
      IsChecked-then lib start _ _ (IsChecked-scif_bind e 23955) (
        IsChecked-then lib start _ (finish e)
          (IsChecked-check lib start _ (connected port e) (safe_connect lib port e))
          (IsChecked-finish lib start e))

  IsChecked-accept : (e : ℕ) → IsChecked lib start (accept lib e)
  unfolding accept
  IsChecked-accept e = accepted e

  pub IsChecked-listen : (port : ℕ) → IsChecked lib start (listen lib port)
  unfolding listen
  IsChecked-listen port = IsChecked-bind lib start _ _ IsChecked-open λ e.
      IsChecked-then lib start _ _ (IsChecked-scif_bind e port) (
        IsChecked-then lib start _ _
          (IsChecked-check lib start _ (listened e 4) (listen_failed e 4))
          (IsChecked-bind lib start (accept lib e) (λ n. finish (e, n)) (IsChecked-accept e)
            λ n. IsChecked-finish lib start {A = ℕ × ℕ} (e, n)))

  pub IsChecked-allocate : (n : ℕ) → IsChecked lib start (allocate lib n)
  unfolding allocate
  IsChecked-allocate n =
      IsChecked-obtain lib start _ (λ w c p some. aligned 4096 n p w c some)
        (memalign_failed 4096 n)

  pub IsChecked-register : (e a n : ℕ) → IsChecked lib start (register lib e a n)
  unfolding register
  IsChecked-register e a n =
      IsChecked-check lib start _ (registered e a n a) (register_failed e a n a)

  pub IsChecked-send : (e a : ℕ) → IsChecked lib start (check (lib.scif_send e a))
  IsChecked-send e a = IsChecked-check lib start _ (sent e a) (send_failed e a)

  pub IsChecked-recv_at : (e a n : ℕ) → IsChecked lib start (check (lib.scif_recv_at e a n))
  IsChecked-recv_at e a n = IsChecked-check lib start _ (received e a n) (recv_at_failed e a n)

  pub IsChecked-tolerated :
      (e a n : ℕ) → IsChecked lib start (check (tolerated (lib.scif_unregister e a n)))
  unfolding tolerated
  IsChecked-tolerated e a n =
      IsChecked-check lib start _
        (λ w c ok. unregistered e a n w c (not_failed (lib.scif_unregister e a n w).0 ok))
        (λ w bad. unregister_failed e a n w (not_done lib (lib.scif_unregister e a n w) bad))

  IsChecked-strict : (e a n : ℕ) → IsChecked lib start (check (strict (lib.scif_unregister e a n)))
  unfolding strict
  IsChecked-strict e a n =
      IsChecked-check lib start _
        (λ w c ok. unregistered e a n w c (not_failed_strict (lib.scif_unregister e a n w).0 ok))
        (λ w bad. unregister_failed e a n w (not_strict lib (lib.scif_unregister e a n w) bad))

  randoms-Clean :
      (byte_of : ℕ → ℕ) (left i buffer : ℕ) (w : lib.World)
      → Clean lib start w
      → Clean lib start (random_from lib byte_of left i buffer w)
  unfolding random_from
  randoms-Clean byte_of zero i buffer w c = c
  randoms-Clean byte_of (suc left) i buffer w c =
      let (r, w') = lib.rand w in
      let m = store8 (buffer + i) (byte_of r) (lib.local_memory w') in
      randoms-Clean byte_of left (i + 1) buffer (lib.write_local m w') (written m w' (drawn w c))

  pub IsChecked-random_buffer : (n a : ℕ) → IsChecked lib start (effect (random_buffer lib n a))
  unfolding random_buffer
  IsChecked-random_buffer n a = IsChecked-effect lib start _ (randoms-Clean (λ r. r % 10) n 0 a)

  pub IsChecked-share : (h : Host) (n : ℕ) → IsChecked lib start (share lib h n)
  unfolding share
  IsChecked-share h n = IsChecked-then lib start _ _ (IsChecked-register h.new_endpoint h.ptr n) (
      IsChecked-then lib start _ _ (IsChecked-register h.new_endpoint h.return_ptr n) (
        IsChecked-then lib start _ _ (IsChecked-send h.new_endpoint h.ptr)
          (IsChecked-send h.new_endpoint h.return_ptr)))

  pub IsChecked-unshare : (h : Host) (n : ℕ) → IsChecked lib start (unshare lib h n)
  unfolding unshare
  IsChecked-unshare h n =
      IsChecked-then lib start _ _ (IsChecked-tolerated h.new_endpoint h.ptr n)
        (IsChecked-strict h.new_endpoint h.return_ptr n)
