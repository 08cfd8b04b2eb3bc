-- ===== src/Experiment/Offered.antt =====
-- What the writers offer under the pacing loops.
use elodin.Common.{
  ℕ, zero, suc, ◌+◌, ◌≡◌, ◌≤◌, ◌<◌, refl, sym, ◌∙◌, Bool, true, false, min, arith, List, [], ◌∷◌,
  ◌++◌, Bytes, length, append_assoc, append-nil,
}
use elodin.Stream.{frame}
use elodin.Experiment.Client.{ClientSpec}
use elodin.Experiment.Pace.{
  sends, Writer, query_of, write, track_next, udp_send, tcp_send, udp_writer, tcp_writer,
  socket_rate,
}
use elodin.Experiment.Due.{due, IsDue, due-IsDue}
use elodin.Experiment.Paced.{pace-due}

-- the queries numbered from `seq + 1` on, as they are written
abbrev pub queries : (Bytes → Bytes) → ClientSpec → Bytes → ℕ → ℕ → ℕ → List Bytes
queries form c tag idx seq zero = []
queries form c tag idx seq (suc n) =
    form (query_of c tag idx (seq + 1)) ∷ queries form c tag idx (seq + 1) n

-- both senders
sender : (Bytes → Bytes) → ClientSpec → Bytes → ℕ → Writer → Writer × Bool
unfolding write track_next query_of
sender form c tag idx w = write (form (query_of c tag idx (w.seq + 1))) (track_next w)

abbrev pub bytes_of : List Bytes → ℕ
bytes_of [] = 0
bytes_of (q ∷ qs) = length q + bytes_of qs

-- what is counted and written when `qs` is written
abbrev pub Wrote : List Bytes → Writer → Writer → Type 0
Wrote qs w w' =
    (w'.stats.offered ≡ w.stats.offered + length qs)
    × (w'.stats.bytes_out ≡ w.stats.bytes_out + bytes_of qs)
    × (w'.wrote ≡ w.wrote ++ qs)

-- a writer after one more query is written
written : Bytes → ℕ → Writer → Writer
unfolding track_next
written q writes w = record (track_next w) {
  stats = record w.stats {
    offered = w.stats.offered + 1;
    bytes_out = w.stats.bytes_out + length q;
  };
  writes = writes;
  wrote = w.wrote ++ q ∷ [];
}

sender-fails :
    (form : Bytes → Bytes) (c : ClientSpec) (tag : Bytes) (idx : ℕ) (w : Writer)
    → w.writes ≡ 0
    → sender form c tag idx w ≡ (track_next w, false)
unfolding sender write track_next
sender-fails form c tag idx w h = rw h refl

sender-writes :
    (form : Bytes → Bytes) (c : ClientSpec) (tag : Bytes) (idx writes : ℕ) (w : Writer)
    → w.writes ≡ suc writes
    → sender form c tag idx w ≡ (written (form (query_of c tag idx (w.seq + 1))) writes w, true)
unfolding sender write track_next written
sender-writes form c tag idx writes w h = rw h refl

Wrote-cons :
    (q : Bytes) (qs : List Bytes) (writes : ℕ) (w w' : Writer)
    → Wrote qs (written q writes w) w'
    → Wrote (q ∷ qs) w w'
unfolding written
Wrote-cons q qs writes w w' (offered, sent, wrote) =
    (omega arith, omega arith, wrote ∙ append_assoc w.wrote (q ∷ []) qs)

Wrote-nil : (w : Writer) → Wrote [] w (track_next w)
unfolding track_next
Wrote-nil w = (omega arith, omega arith, sym (append-nil w.wrote))

sends-Wrote :
    (form : Bytes → Bytes) (c : ClientSpec) (tag : Bytes) (idx n writes : ℕ) (w : Writer)
    → w.writes ≡ writes
    → Wrote (queries form c tag idx w.seq (min n writes)) w (sends (sender form c tag idx) n w).0
unfolding sends written track_next
sends-Wrote form c tag idx zero writes w h =
    let nothing : min 0 writes ≡ 0 = omega arith in
    rw nothing (omega arith, omega arith, sym (append-nil w.wrote))
sends-Wrote form c tag idx (suc n) zero w h =
    let nothing : min (suc n) 0 ≡ 0 = omega arith in
    rw (nothing, sends, sender-fails form c tag idx w h) (Wrote-nil w)
sends-Wrote form c tag idx (suc n) (suc writes) w h =
    let one_more : min (suc n) (suc writes) ≡ suc (min n writes) = omega arith in
    let q = form (query_of c tag idx (w.seq + 1)) in
    rw (one_more, sends, sender-writes form c tag idx writes w h)
      (Wrote-cons q (queries form c tag idx (w.seq + 1) (min n writes)) writes w
        (sends (sender form c tag idx) n (written q writes w)).0
        (sends-Wrote form c tag idx n writes (written q writes w) refl))

-- Over so many rounds `udpWriter` writes the queries that follow its last one in number, in order: as
-- many as are due at its socket's rate, or as the socket takes if that is less. `offered` grows by
-- their number and `bytesOut` by their length.
pub udp_writer-Wrote :
    (c : ClientSpec) (tag : Bytes) (idx rounds : ℕ) (w : Writer)
    → Wrote
        (queries (λ q. q) c tag idx w.seq (min (due (socket_rate c) rounds) w.writes))
        w
        (udp_writer c tag idx rounds w)
unfolding udp_writer udp_send sender
udp_writer-Wrote c tag idx rounds w =
    rw (pace-due (udp_send c tag idx) (socket_rate c) rounds w)
      (sends-Wrote (λ q. q) c tag idx (due (socket_rate c) rounds) w.writes w refl)

-- Over fewer than 2^30 ticks, at a rate of up to a million for its socket, `tcpWriter` writes the queries that
-- follow its last one in number, in order and framed: as many as are due, or as the socket takes if that
-- is less. `offered` grows by their number and `bytesOut` by their length, the frames included. What is
-- due, in thousandths, is at most the rate times the ticks, and less than that by a thousand at most; flat
-- out it is 64 for each round.
pub tcp_writer-Wrote :
    (c : ClientSpec) (tag : Bytes) (idx rounds : ℕ) (w : Writer)
    → socket_rate c ≤ 1000000
    → rounds < 1073741824
    → Wrote
        (queries frame c tag idx w.seq (min (due (socket_rate c) rounds) w.writes))
        w
        (tcp_writer c tag idx rounds w)
      × IsDue (socket_rate c) rounds (due (socket_rate c) rounds)
unfolding tcp_writer tcp_send sender
tcp_writer-Wrote c tag idx rounds w small short = (
  rw (pace-due (tcp_send c tag idx) (socket_rate c) rounds w)
      (sends-Wrote frame c tag idx (due (socket_rate c) rounds) w.writes w refl),
  due-IsDue (socket_rate c) rounds small short,
)
