-- ===== src/Tests/Messages.antt =====
-- A SCIF library over two memories and a list of messages: `scif_send` puts a message at the end of the
-- list, `scif_recv` takes the first. It keeps to its documentation, and none of its calls fails.
use xeon_phi_kernel_integrat.Base.{ℕ, ◌+◌, ◌/◌, List, [], ◌∷◌, ◌++◌, ◌≡◌, refl, true, ap}
use mathlib.Core.Option.{some}
use xeon_phi_kernel_integrat.Client.Library.{Scif, IsDocumented, done}
use xeon_phi_kernel_integrat.Client.Messages.{IsSending, IsReceiving}
use xeon_phi_kernel_integrat.Client.Rules.{
  Failure, open_failed, bind_failed, listen_failed, connect_failed, memalign_failed,
  register_failed, recv_failed, recv_at_failed, send_failed, unregister_failed, read_failed,
  write_failed,
}
use xeon_phi_kernel_integrat.Tests.Loopback.{
  TwoMemories, copy, copy-IsCopied, backwards, backwards-IsOrder,
}

pub record Posts : Type 0 where
  pub memories : TwoMemories
  pub messages : List ℕ

abbrev pub first_message : List ℕ → ℕ
first_message [] = 0
first_message (x ∷ xs) = x

abbrev pub later_messages : List ℕ → List ℕ
later_messages [] = []
later_messages (x ∷ xs) = xs

abbrev pub posting : Scif
posting = record {
  World = Posts;
  local_memory = λ w. w.memories.card;
  peer_memory = λ w. w.memories.host;
  write_local = λ m w. record w { memories = record w.memories { card = m } };
  scif_open = λ w. (some 3, w);
  scif_bind = λ e port w. (true, w);
  scif_listen = λ e n w. (true, w);
  scif_accept = λ e w. (4, w);
  scif_connect = λ e node port w. (true, w);
  posix_memalign = λ a n w. (
    some w.memories.next,
    record w { memories = record w.memories { next = w.memories.next + n } },
  );
  malloc = λ n w. (0, w);
  free = λ a w. w;
  scif_register = λ e a n o w. (true, w);
  scif_recv =
      λ e w. (some (first_message w.messages), record w { messages = later_messages w.messages });
  scif_recv_at = λ e a n w. (true, w);
  scif_recv_count = λ e a n w. (some n, w);
  scif_send_count = λ e a n w. (some n, w);
  scif_send = λ e a w. (true, record w { messages = w.messages ++ (a ∷ []) });
  scif_readfrom = λ e to n from w. (
    true,
    record w {
      memories = record w.memories { card = copy w.memories.card w.memories.host to from n };
    },
  );
  scif_writeto = λ e from n to w. (
    true,
    record w {
      memories = record w.memories { host = copy w.memories.host w.memories.card to from n };
    },
  );
  scif_unregister = λ e a n w. (done, w);
  scif_close = λ e w. w;
  sleep = λ n w. w;
  rand = λ w. (7, w);
  loop_order = λ n w. backwards (n / 16);
}

pub posting-IsDocumented : IsDocumented posting
posting-IsDocumented = record {
  local_written = λ m w. refl;
  peer_kept = λ m w. refl;
  readfrom_local = λ e to n from w ok. copy-IsCopied w.memories.card w.memories.host to from n;
  readfrom_peer = λ e to n from w. refl;
  writeto_peer = λ e from n to w ok. copy-IsCopied w.memories.host w.memories.card to from n;
  writeto_local = λ e from n to w. refl;
  rounds = λ n w whole. backwards-IsOrder n whole;
  rand_local = λ w. refl;
  unregister_local = λ e a n w. refl;
  recv_at_local = λ e a n w x h. refl;
  close_local = λ e w. refl;
}

abbrev pub posting_sends : IsSending posting
posting_sends = record {
  sent = λ w. w.messages;
  send_sent = λ e a w ok. refl;
  open_sent = λ w. refl;
  bind_sent = λ e p w. refl;
  listen_sent = λ e n w. refl;
  accept_sent = λ e w. refl;
  memalign_sent = λ a n w. refl;
  written_sent = λ m w. refl;
  rand_sent = λ w. refl;
  register_sent = λ e a n o w. refl;
}

pub taken_first :
    (x : ℕ) (xs : List ℕ) (a : ℕ) (l : List ℕ)
    → l ≡ x ∷ xs
    → some (first_message l) ≡ some a
    → (a ≡ x) × (later_messages l ≡ xs)
taken_first x xs a l e e' =
    let f : first_message l ≡ x = ap first_message e in (cc, ap later_messages e)

abbrev pub posting_receives : IsReceiving posting
posting_receives = record {
  inbox = λ w. w.messages;
  recv_inbox = λ e x xs a w here got. taken_first x xs a w.messages here got;
  open_inbox = λ w. refl;
  bind_inbox = λ e p w. refl;
  connect_inbox = λ e n p w. refl;
  sleep_inbox = λ n w. refl;
  memalign_inbox = λ a n w. refl;
  written_inbox = λ m w. refl;
  register_inbox = λ e a n o w. refl;
}

-- none of its calls fails
pub never : (w : Posts) → ¬ Failure posting w
never w (open_failed v e) = cc
never w (bind_failed a p v e) = cc
never w (listen_failed a n v e) = cc
never w (connect_failed a n p v e) = cc
never w (memalign_failed a n v e) = cc
never w (register_failed a b n o v e) = cc
never w (recv_failed a v e) = cc
never w (recv_at_failed a b n v e) = cc
never w (send_failed a b v e) = cc
never w (unregister_failed a b n v e) = e refl
never w (read_failed a b n c v e) = cc
never w (write_failed a b n c v e) = cc
