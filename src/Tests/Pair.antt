-- ===== src/Tests/Pair.antt =====
-- The two sides of openmpmic and of aes_bench over the library of Tests/Messages.
use mathlib.Core.Path.{subst}
use native.Mathlib.Decide.{dec_lt}
use xeon_phi_kernel_integrat.Base.{ℕ, ◌+◌, ◌<◌, [], ◌∷◌, true, ◌≡◌, ◌⊎◌, inr, refl, sym, arith}
use xeon_phi_kernel_integrat.Memory.{Memory}
use xeon_phi_kernel_integrat.Memory.Laws.{IsBytes}
use xeon_phi_kernel_integrat.Client.Step.{
  Exit, value, returned, ◌>>◌, check, obtain, effect, connect, retry, open_connection, allocate,
  register, clear_buffer,
}
use xeon_phi_kernel_integrat.Client.Session.{Session, session}
use xeon_phi_kernel_integrat.Client.SetUp.{set_up}
use xeon_phi_kernel_integrat.Client.Host.{Host, host, random_buffer, accept, listen, share}
use xeon_phi_kernel_integrat.Client.HostLaws.{random_buffer_lem}
use xeon_phi_kernel_integrat.Client.Rules.{Failure, Post}
use xeon_phi_kernel_integrat.Client.Passes.{IsApart}
use xeon_phi_kernel_integrat.Client.Keyed.{setting}
use xeon_phi_kernel_integrat.Client.Back.{IsBack}
use xeon_phi_kernel_integrat.Client.Gives.{gives_elim}
use xeon_phi_kernel_integrat.Client.SendLaws.{Sent}
use xeon_phi_kernel_integrat.Openmp.Card.{len, benchmark}
use xeon_phi_kernel_integrat.Openmp.Benchmark.{benchmark-IsBack}
use xeon_phi_kernel_integrat.Openmp.Host.{host_set_up, host_end}
use xeon_phi_kernel_integrat.AesBench.Card.{single_benchmark}
use xeon_phi_kernel_integrat.AesBench.Run.{single_benchmark-IsBack}
use xeon_phi_kernel_integrat.Hosts.Exchange.{report_set_up, report_end}
use xeon_phi_kernel_integrat.Pair.Openmp.{Triple-host_set_up, host_card_lem}
use xeon_phi_kernel_integrat.Pair.Reports.{Triple-report_set_up, single_pair_lem}
use xeon_phi_kernel_integrat.Tests.Cipher.{blank, key_128, keyed}
use xeon_phi_kernel_integrat.Tests.Buffers.{counting, counting-IsBytes}
use xeon_phi_kernel_integrat.Tests.Programs.{blank-IsKeyable, clear-IsBytes}
use xeon_phi_kernel_integrat.Tests.Messages.{
  Posts, posting, posting-IsDocumented, posting_sends, posting_receives, never,
}

abbrev before : Posts
before = record { memories = record { card = counting; host = counting; next = 0 }; messages = [] }

abbrev told_host : Host
told_host = host 3 4 0 1073741824

abbrev told_session : Session
told_session = session 3 0 1073741824 2147483648 0 1073741824

told_session-IsApart : IsApart len told_session
told_session-IsApart = record {
  temp_ptr = inr (omega arith);
  out_temp = inr (omega arith);
  return_remote = inr (omega arith);
}

-- the card's world where the host's is `v`
abbrev beside : Posts → Posts
beside v = record {
  memories = record { card = counting; host = v.memories.card; next = 0 };
  messages = 0 ∷ 1073741824 ∷ [];
}

-- the host's world after the loops that leave `w`
abbrev back_from : Posts → Posts → Posts
back_from v w = record v { memories = record v.memories { card = w.memories.host } }

-- a buffer at the start of the memory, filled by `randombuffer`
filled-IsBytes :
    (v : Posts) → IsBytes v.memories.card → IsBytes (random_buffer posting len 0 v).memories.card
filled-IsBytes v bytes x =
    let (inside, outside) = random_buffer_lem posting posting-IsDocumented len 0 v in
    elim (dec_lt x len) [
      | yes lt ↦
          let digit : filled x < 10 = subst (λ y. filled y < 10) (omega arith) (inside x lt) in
          omega arith
      | no ge ↦
          let same : filled x ≡ v.memories.card x = outside x (inr (omega arith)) in
          rw same (bytes x)
    ]
  where
    filled : Memory
    filled = (random_buffer posting len 0 v).memories.card

-- Loops over this library always go through.
went :
    (Q : Posts → Type 0) (o : Exit (Unit {0}) × Posts)
    → Post posting (Failure posting) Q o
    → o ≡ (value tt, o.1)
went Q (value tt, w) q = refl
went Q (returned c, w) (e, f) = absurd (never w f)

-- openmpmic
abbrev v1 : Posts
v1 = (host_set_up posting before).1

abbrev w1 : Posts
w1 = (set_up posting 23968 len (beside v1)).1

abbrev w2 : Posts
w2 = (benchmark posting keyed told_session w1).1

host_begun : host_set_up posting before ≡ (value told_host, v1)
unfolding host_set_up listen accept allocate clear_buffer share register check obtain effect
host_begun = refl

host-IsBytes : IsBytes v1.memories.card
unfolding host_set_up listen accept allocate clear_buffer share register check obtain effect
host-IsBytes = filled-IsBytes _ (clear-IsBytes len 1073741824 counting counting-IsBytes)

messages_sent : (0 ∷ 1073741824 ∷ []) ≡ v1.messages
messages_sent = sym (
    gives_elim (λ k. Sent posting posting_sends (k.ptr ∷ k.return_ptr ∷ []))
      (host_set_up posting before) told_host v1 host_begun
      (Triple-host_set_up posting posting_sends before refl))

card_begun : set_up posting 23968 len (beside v1) ≡ (value told_session, w1)
unfolding set_up open_connection allocate register clear_buffer check obtain effect connect retry
card_begun = refl

card_sees : w1.memories.host ≡ v1.memories.card
unfolding set_up open_connection allocate register clear_buffer check obtain effect connect retry
card_sees = refl

card-IsBytes : IsBytes w1.memories.card
unfolding set_up open_connection allocate register clear_buffer check obtain effect connect retry
card-IsBytes = clear-IsBytes len 0 counting counting-IsBytes

peer-IsBytes : IsBytes w1.memories.host
unfolding set_up open_connection allocate register clear_buffer check obtain effect connect retry
peer-IsBytes = host-IsBytes

loops_went : benchmark posting keyed told_session w1 ≡ (value tt, w2)
loops_went = went (IsBack posting len told_session w1) (benchmark posting keyed told_session w1) (
    benchmark-IsBack posting posting-IsDocumented blank key_128 16 blank-IsKeyable told_session w1
      told_session-IsApart card-IsBytes peer-IsBytes)

host_card_lem_example :
    let v2 = back_from v1 w2 in
    let (r, v3) = host_end posting told_host v2 in
    ((i : ℕ)
      → i < len
      → (v2.memories.card (1073741824 + i) ≡ v1.memories.card (0 + i))
        × (v2.memories.card (0 + i) ≡ v1.memories.card (0 + i)))
    × ((r ≡ value tt) ⊎ ((r ≡ returned 1) × Failure posting v3))
host_card_lem_example =
    host_card_lem posting posting posting_sends posting_receives blank key_128 before v1
      (back_from v1 w2) (beside v1) w1 w2 told_host told_session posting-IsDocumented
      posting-IsDocumented blank-IsKeyable refl host_begun messages_sent card_begun card_sees
      told_session-IsApart card-IsBytes peer-IsBytes loops_went refl

-- aes_bench
abbrev report_v1 : Posts
report_v1 = (report_set_up posting 23954 len before).1

abbrev report_w1 : Posts
report_w1 = (set_up posting 23954 len (beside report_v1)).1

abbrev report_w2 : Posts
report_w2 = (single_benchmark posting keyed told_session report_w1).1

report_begun : report_set_up posting 23954 len before ≡ (value told_host, report_v1)
unfolding report_set_up listen accept allocate share register check obtain effect
report_begun = refl

report-IsBytes : IsBytes report_v1.memories.card
unfolding report_set_up listen accept allocate share register check obtain effect
report-IsBytes = filled-IsBytes _ counting-IsBytes

report_sent : (0 ∷ 1073741824 ∷ []) ≡ report_v1.messages
report_sent = sym (
    gives_elim (λ k. Sent posting posting_sends (k.ptr ∷ k.return_ptr ∷ []))
      (report_set_up posting 23954 len before) told_host report_v1 report_begun
      (Triple-report_set_up posting posting_sends 23954 len before refl))

single_begun : set_up posting 23954 len (beside report_v1) ≡ (value told_session, report_w1)
unfolding set_up open_connection allocate register clear_buffer check obtain effect connect retry
single_begun = refl

single_sees : report_w1.memories.host ≡ report_v1.memories.card
unfolding set_up open_connection allocate register clear_buffer check obtain effect connect retry
single_sees = refl

single_card-IsBytes : IsBytes report_w1.memories.card
unfolding set_up open_connection allocate register clear_buffer check obtain effect connect retry
single_card-IsBytes = clear-IsBytes len 0 counting counting-IsBytes

single_peer-IsBytes : IsBytes report_w1.memories.host
unfolding set_up open_connection allocate register clear_buffer check obtain effect connect retry
single_peer-IsBytes = report-IsBytes

single_went : single_benchmark posting keyed told_session report_w1 ≡ (value tt, report_w2)
single_went =
    went (IsBack posting len told_session report_w1)
      (single_benchmark posting keyed told_session report_w1)
      (single_benchmark-IsBack posting posting-IsDocumented keyed told_session report_w1
        (setting len blank key_128 16 told_session report_w1.memories.host blank-IsKeyable
          single_peer-IsBytes told_session-IsApart refl)
        single_card-IsBytes)

single_pair_lem_example :
    let v2 = back_from report_v1 report_w2 in
    let (r, v4) =
      (check (posting.scif_recv_at 4 4294967296 8) >> report_end posting told_host len) v2 in
    ((i : ℕ)
      → i < len
      → (v2.memories.card (1073741824 + i) ≡ report_v1.memories.card (0 + i))
        × (v2.memories.card (0 + i) ≡ report_v1.memories.card (0 + i)))
    × ((r ≡ value true) ⊎ ((r ≡ returned 1) × Failure posting v4))
single_pair_lem_example =
    single_pair_lem posting posting posting_sends posting_receives blank key_128 before report_v1
      (back_from report_v1 report_w2) (beside report_v1) report_w1 report_w2 told_host told_session
      4294967296 posting-IsDocumented posting-IsDocumented blank-IsKeyable refl report_begun
      report_sent single_begun single_sees told_session-IsApart single_card-IsBytes
      single_peer-IsBytes single_went refl (inr (omega arith), inr (omega arith))
