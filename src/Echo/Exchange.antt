-- ===== src/Echo/Exchange.antt =====
-- `main` of base/scif_host.c and of base/scif_mic.c: the host sends a message of random digits, the
-- card adds one to each byte and sends the message back. Printing is left out.
use xeon_phi_kernel_integrat.Base.{ℕ, zero, suc, ◌+◌, ◌%◌, ◌^◌, Bool, false, ◌==◌}
use mathlib.Core.Option.{Option, none, some}
use xeon_phi_kernel_integrat.Memory.{Memory}
use xeon_phi_kernel_integrat.Client.Library.{Scif}
use xeon_phi_kernel_integrat.Client.Step.{
  M, value, ◌>>=◌, ◌>>◌, check, effect, open_connection, exit_code,
}
use xeon_phi_kernel_integrat.Client.Host.{store8, random_buffer, listen}

abbrev pub message_len : ℕ
message_len = 200

-- `buffer[i] = buffer[i] + 1` on bytes, from round `i` on, with `left` rounds to go
unfoldable pub increment_from : ℕ → ℕ → ℕ → Memory → Memory
increment_from zero i buffer m = m
increment_from (suc left) i buffer m =
    increment_from left (i + 1) buffer (store8 (buffer + i) ((m (buffer + i) + 1) % 2 ^ 8) m)

unfoldable pub increment : ℕ → ℕ → Memory → Memory
increment n buffer = increment_from n 0 buffer

-- `ret != len`
unfoldable pub counted : {W : Type 0} → ℕ → (W → Option ℕ × W) → W → Bool × W
counted n call w = let (o, w') = call w in (elim o [ some k ↦ k == n | none ↦ false ], w')

module _ (lib : Scif) where
  -- `malloc`, whose result the programs do not look at
  unfoldable pub take_memory : ℕ → M lib.World ℕ
  take_memory n w = let (a, w') = lib.malloc n w in (value a, w')

  unfoldable pub echo_card : M lib.World (Unit {0})
  echo_card = do
    endpoint ← open_connection lib 23954
    buffer ← take_memory message_len
    check (counted message_len (lib.scif_recv_count endpoint buffer message_len))
    effect (λ w. lib.write_local (increment message_len buffer (lib.local_memory w)) w)
    check (counted message_len (lib.scif_send_count endpoint buffer message_len))
    effect (lib.free buffer)
    effect (lib.scif_close endpoint)

  unfoldable pub echo_card_main : lib.World → ℕ × lib.World
  echo_card_main w = exit_code (echo_card w)

  -- The result of `scif_recv` is not kept: the check after it looks at that of `scif_send` again, which
  -- has passed its own check.
  unfoldable pub echo_host : M lib.World (Unit {0})
  echo_host = do
    ends ← listen lib 23954
    buffer ← take_memory message_len
    effect (random_buffer lib message_len buffer)
    check (counted message_len (lib.scif_send_count ends.1 buffer message_len))
    effect (λ w. (lib.scif_recv_count ends.1 buffer message_len w).1)
    effect (lib.free buffer)
    effect (lib.scif_close ends.0)

  unfoldable pub echo_host_main : lib.World → ℕ × lib.World
  echo_host_main w = exit_code (echo_host w)
