-- ===== src/Latency/PingPong.antt =====
-- The loops of latency/sendrecv/scif_host.c and latency/sendrecv/scif_mic.c, run side by side: the
-- host sends a byte and waits for one, the card waits for a byte and sends it back.
use xeon_phi_kernel_integrat.Base.{ℕ, suc, ◌+◌, List, [], ◌∷◌, ◌≡◌, ltb, if◌then◌else◌}
use mathlib.Core.Option
use mathlib.Core.Option.{Option, none, some}

-- What a call with SCIF_SEND_BLOCK or SCIF_RECV_BLOCK does at the moment: it waits, it returns an
-- error, or it returns with a result.
pub data Reply (A : Type 0) : Type 0 where
  waits : Reply A
  fails : Reply A
  replied : A → Reply A

-- One direction of a connection: `scif_send` of one byte, and `scif_recv` of one byte.
pub record Connection : Type 1 where
  pub Queue : Type 0
  pub scif_send : ℕ → Queue → Reply Queue
  pub scif_recv : Queue → Reply (ℕ × Queue)

-- The documented behaviour that the theorems rely on, for a connection with both ends open: there is
-- room for a byte, what was sent is received, and a receiver waits while there is nothing for it.
pub record IsOpen (con : Connection) : Type 0 where
  pub contents : con.Queue → List ℕ
  pub sends :
      (b : ℕ) (q : con.Queue)
      → contents q ≡ []
      → (q' : con.Queue) × (con.scif_send b q ≡ replied q') × (contents q' ≡ b ∷ [])
  pub receives :
      (b : ℕ) (q : con.Queue)
      → contents q ≡ b ∷ []
      → (q' : con.Queue) × (con.scif_recv q ≡ replied (b, q')) × (contents q' ≡ [])
  pub empty_waits : (q : con.Queue) → contents q ≡ [] → con.scif_recv q ≡ waits

-- the call of the loop's body that comes next
pub data Turn : Type 0 where
  sending : Turn
  receiving : Turn

-- The variables of one side: `i`, its place in the body, and `buffer[0]`.
pub record Side : Type 0 where
  pub round : ℕ
  pub turn : Turn
  pub buffer : ℕ

abbrev pub side : ℕ → Turn → ℕ → Side
side round turn buffer = record { round = round; turn = turn; buffer = buffer }

abbrev pub loops : ℕ
loops = 50000

module _ (con : Connection) where
  pub record System : Type 0 where
    pub host : Side
    pub card : Side
    pub to_card : con.Queue
    pub to_host : con.Queue

  abbrev pub system : Side → Side → con.Queue → con.Queue → System
  system host card to_card to_host = record {
    host = host;
    card = card;
    to_card = to_card;
    to_host = to_host;
  }

  -- `scif_send`, whose result the loops do not look at; `none` while it waits
  unfoldable pub send : ℕ → con.Queue → Option con.Queue
  send b q = elim (con.scif_send b q) [ waits ↦ none | fails ↦ some q | replied q' ↦ some q' ]

  -- `scif_recv` into a buffer that holds `b`, whose result the loops do not look at
  unfoldable pub recv : ℕ → con.Queue → Option (ℕ × con.Queue)
  recv b q = elim (con.scif_recv q) [ waits ↦ none | fails ↦ some (b, q) | replied r ↦ some r ]

  unfoldable pub host_turn : Turn → System → Option System
  host_turn sending s =
      Option.map (λ q. record s { host = record s.host { turn = receiving }; to_card = q })
        (send s.host.buffer s.to_card)
  host_turn receiving s =
      Option.map (λ r. record s { host = side (s.host.round + 1) sending r.0; to_host = r.1 })
        (recv s.host.buffer s.to_host)

  unfoldable pub card_turn : Turn → System → Option System
  card_turn receiving s =
      Option.map
        (λ r. record s { card = record s.card { turn = sending; buffer = r.0 }; to_card = r.1 })
        (recv s.card.buffer s.to_card)
  card_turn sending s =
      Option.map
        (λ q. record s {
          card = record s.card { round = s.card.round + 1; turn = receiving };
          to_host = q;
        })
        (send s.card.buffer s.to_host)

  -- One call of the host's loop; `none` when the loop is over, and while the call waits.
  unfoldable pub host_step : System → Option System
  host_step s = if ltb s.host.round loops then host_turn s.host.turn s else none

  unfoldable pub card_step : System → Option System
  card_step s = if ltb s.card.round loops then card_turn s.card.turn s else none

  -- The two sides before their loops: a byte in the host's buffer, and what `malloc` left in the card's.
  unfoldable pub start : ℕ → ℕ → con.Queue → con.Queue → System
  start b c to_card to_host = system (side 0 sending b) (side 0 receiving c) to_card to_host

  -- Either side makes a step.
  pub data Step (s t : System) : Type 0 where
    by_host : host_step s ≡ some t → Step s t
    by_card : card_step s ≡ some t → Step s t

  -- The runs of `n` steps.
  pub data Run (s : System) : ℕ → System → Type 0 where
    here : Run s 0 s
    next : {n : ℕ} {t u : System} → Run s n t → Step t u → Run s (suc n) u
