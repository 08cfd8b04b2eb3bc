-- ===== src/Experiment/Pace.antt =====
-- bench/cmd/rrlexp/client.go: pace, and the clients that send under it.
--
-- `send` takes a state and says whether to go on. A loop that runs until a time is given how many of
-- its rounds begin before it. The credit is that of Credit.
use elodin.Common.{
  ℕ, zero, suc, ◌+◌, ◌-◌, ◌/◌, ◌%◌, max, Bool, true, false, List, [], ◌∷◌, ◌++◌, leb, if◌then◌else◌,
  Bytes, length,
}
use elodin.DnsWire.{type_a, query}
use elodin.Stream.{frame}
use elodin.Experiment.Credit.{one, nearest, per_tick}
use elodin.Experiment.Client.{ClientSpec, name, Stats, Tracker, put}

abbrev pub edns_size : ℕ
edns_size = 1232

-- at most `n` sends, as many as `send` allows
unfoldable pub sends {ℓ} : {S : Type ℓ} → (S → S × Bool) → ℕ → S → S × Bool
sends send zero s = (s, true)
sends send (suc n) s =
    let (s', more) = send s in let rest = sends send n s' in if more then rest else (s', false)

-- `paceFlatOut` over so many rounds
unfoldable pub pace_flat_out {ℓ} : {S : Type ℓ} → (S → S × Bool) → ℕ → S → S
pace_flat_out send zero s = s
pace_flat_out send (suc rounds) s =
    let (s', more) = sends send 64 s in
    let rest = pace_flat_out send rounds s' in if more then rest else s'

-- the inner loop of `paceAt`, while there is a whole send of credit; each round takes one off
unfoldable pub spend {ℓ} : {S : Type ℓ} → (S → S × Bool) → ℕ → ℕ → S → (S × Bool) × ℕ
spend send zero credit s = ((s, true), credit)
spend send (suc fuel) credit s =
    let (s', more) = send s in
    let rest = spend send fuel (credit - one) s' in
    if leb one credit then (if more then rest else ((s', false), credit)) else ((s, true), credit)

-- `paceAt` over so many ticks, where the fuel of the inner loop is the whole part of the credit
unfoldable pub pace_at {ℓ} : {S : Type ℓ} → (S → S × Bool) → ℕ → ℕ → ℕ → S → S
unfolding nearest spend
pace_at send tick zero credit s = s
pace_at send tick (suc ticks) credit s =
    let due = nearest (credit + tick) 1 in
    let ((s', more), left) = spend send (due / one) due s in
    let rest = pace_at send tick ticks left s' in if more then rest else s'

unfoldable pub pace {ℓ} : {S : Type ℓ} → (S → S × Bool) → ℕ → ℕ → S → S
unfolding pace_flat_out pace_at per_tick
pace send zero rounds s = pace_flat_out send rounds s
pace send (suc rate) rounds s = pace_at send (per_tick (suc rate)) rounds 0 s

-- what a writer keeps: the number of its last query, the counters, the tracker, the clock readings to
-- come, how many more writes the socket takes, and what it wrote
pub record Writer : Type 0 where
  pub seq : ℕ
  pub stats : Stats
  pub tracker : Tracker
  pub clock : List ℕ
  pub writes : ℕ
  pub wrote : List Bytes

abbrev now_of : List ℕ → ℕ
now_of [] = 0
now_of (now ∷ later) = now

abbrev later_of : List ℕ → List ℕ
later_of [] = []
later_of (now ∷ later) = later

-- the query of number `seq`
unfoldable pub query_of : ClientSpec → Bytes → ℕ → ℕ → Bytes
query_of c tag idx seq = query (seq % 65536) (name c idx seq tag) type_a edns_size

-- the rest of a send: the write, and what is counted if it succeeded
unfoldable pub write : Bytes → Writer → Writer × Bool
write q w = elim w.writes [
  | zero ↦ (w, false)
  | suc writes ↦ (
    record w {
      stats = record w.stats {
        offered = w.stats.offered + 1;
        bytes_out = w.stats.bytes_out + length q;
      };
      writes = writes;
      wrote = w.wrote ++ q ∷ [];
    },
    true,
  )
]

-- what both senders do before they write
unfoldable pub track_next : Writer → Writer
track_next w = record w {
  seq = w.seq + 1;
  tracker = put w.tracker ((w.seq + 1) % 65536) (now_of w.clock);
  clock = later_of w.clock;
}

-- one send of `udpWriter`
unfoldable pub udp_send : ClientSpec → Bytes → ℕ → Writer → Writer × Bool
unfolding write track_next query_of
udp_send c tag idx w = write (query_of c tag idx (w.seq + 1)) (track_next w)

-- one send of `tcpWriter`
unfoldable pub tcp_send : ClientSpec → Bytes → ℕ → Writer → Writer × Bool
unfolding write track_next query_of
tcp_send c tag idx w = write (frame (query_of c tag idx (w.seq + 1))) (track_next w)

-- the share of the rate that one socket offers; `/` by at least 1
abbrev pub socket_rate : ClientSpec → ℕ
socket_rate c = c.rate / max c.sockets 1

unfoldable pub udp_writer : ClientSpec → Bytes → ℕ → ℕ → Writer → Writer
unfolding pace udp_send
udp_writer c tag idx rounds w = pace (udp_send c tag idx) (socket_rate c) rounds w

unfoldable pub tcp_writer : ClientSpec → Bytes → ℕ → ℕ → Writer → Writer
unfolding pace tcp_send
tcp_writer c tag idx rounds w = pace (tcp_send c tag idx) (socket_rate c) rounds w
