-- ===== src/Tests/PingPong.antt =====
-- The theorems on latency/sendrecv over a connection that is a list of bytes.
use xeon_phi_kernel_integrat.Base.{ℕ, ◌-◌, ◌*◌, ◌≤◌, ◌++◌, [], ◌∷◌, List, ◌≡◌, ◌⊎◌, refl, ap}
use mathlib.Core.Option.{none}
use xeon_phi_kernel_integrat.Latency.PingPong.{
  Connection, IsOpen, Reply, waits, replied, sending, receiving, side, loops, System, system, send,
  recv, host_turn, card_turn, host_step, card_step, start, by_host, by_card, Run, here, next,
}
use xeon_phi_kernel_integrat.Latency.Runs.{byte_kept, loops_end, schedule_free}

unfoldable take_first : List ℕ → Reply (ℕ × List ℕ)
take_first [] = waits
take_first (b ∷ q) = replied (b, q)

abbrev fifo : Connection
fifo = record { Queue = List ℕ; scif_send = λ b q. replied (q ++ (b ∷ [])); scif_recv = take_first }

open_fifo : IsOpen fifo
unfolding take_first
open_fifo = record {
  contents = λ q. q;
  sends = λ b q e. (q ++ (b ∷ []), refl, ap (λ l. l ++ (b ∷ [])) e);
  receives = λ b q e. ([], ap take_first e, refl);
  empty_waits = λ q e. ap take_first e;
}

-- the byte 7, sent and received
abbrev received : System fifo
received = system fifo (side 0 receiving 7) (side 0 sending 7) [] []

two_calls : Run fifo (start fifo 7 0 [] []) 2 received
unfolding start host_step card_step host_turn card_turn send recv take_first
two_calls =
    next
      (next {t = start fifo 7 0 [] []}
        {u = system fifo (side 0 receiving 7) (side 0 receiving 0) (7 ∷ []) []} here (by_host refl))
      (by_card refl)

byte_kept_example :
    (2 ≤ 4 * loops)
    × (received.host.buffer ≡ 7)
    × ((host_step fifo received ≡ none) ⊎ (card_step fifo received ≡ none))
    × ((received.to_card ≡ []) ⊎ (received.to_host ≡ []))
unfolding open_fifo
byte_kept_example = byte_kept fifo open_fifo 7 0 [] [] refl refl 2 received two_calls

loops_end_example :
    (u : System fifo) × Run fifo received (4 * loops - 2) u
    × (u.host.round ≡ loops)
    × (u.card.round ≡ loops)
    × (u.card.buffer ≡ 7)
unfolding open_fifo
loops_end_example = loops_end fifo open_fifo 7 0 [] [] refl refl 2 received two_calls

schedule_free_example : received ≡ received
unfolding open_fifo
schedule_free_example =
    schedule_free fifo open_fifo 7 0 [] [] refl refl 2 received received two_calls two_calls
