-- ===== src/Tests/Connect.antt =====
-- The attempts to connect, with a peer that refuses the first two.
use xeon_phi_kernel_integrat.Base.{ℕ, suc, [], ◌≡◌, refl, true, ltb}
use mathlib.Core.Option.{some}
use xeon_phi_kernel_integrat.Client.Library.{Scif, done}
use xeon_phi_kernel_integrat.Client.Step.{connect, retry}
use xeon_phi_kernel_integrat.Client.Connect.{IsFirst, connect_lem}

-- The world is the number of attempts made.
abbrev late : Scif
late = record {
  World = ℕ;
  local_memory = λ w a. 0;
  peer_memory = λ w a. 0;
  write_local = λ m w. w;
  scif_open = λ w. (some 3, w);
  scif_bind = λ e port w. (true, w);
  scif_listen = λ e n w. (true, w);
  scif_accept = λ e w. (4, w);
  scif_connect = λ e node port w. (ltb 1 w, suc w);
  posix_memalign = λ a n w. (some a, w);
  malloc = λ n w. (4096, w);
  free = λ a w. w;
  scif_register = λ e a n o w. (true, w);
  scif_recv = λ e w. (some 4096, w);
  scif_recv_at = λ e a n w. (true, w);
  scif_recv_count = λ e a n w. (some n, w);
  scif_send_count = λ e a n w. (some n, w);
  scif_send = λ e a w. (true, w);
  scif_readfrom = λ e to n from w. (true, w);
  scif_writeto = λ e from n to w. (true, w);
  scif_unregister = λ e a n w. (done, w);
  scif_close = λ e w. w;
  sleep = λ n w. w;
  rand = λ w. (4, w);
  loop_order = λ n w. [];
}

third_attempt : connect late 23968 3 0 ≡ (true, 3)
unfolding connect retry
third_attempt = refl

connect_lem_example : IsFirst late 23968 3 0 10 (connect late 23968 3 0)
connect_lem_example = connect_lem late 23968 3 0
