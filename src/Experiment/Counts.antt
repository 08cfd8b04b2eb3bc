-- ===== src/Experiment/Counts.antt =====
-- What a client's counters and its tracker mean.
use elodin.Common.{
  ℕ, suc, ◌+◌, ◌≤◌, ◌≡◌, refl, ◌∙◌, Bool, true, false, Option, none, some, List, [], ◌∷◌, Bytes,
  length, Result, ok, err, arith, length-append, take, not, if◌then◌else◌,
}
use elodin.DnsWire.{Error, Reply, parse_reply}
use elodin.Stream.{Conn, read_full, frame_size}
use elodin.Experiment.Client.{
  Stats, Tracker, End, count_code, add_rcode, add_latency, took, count_reply, latency_of,
  record_reply, receive_parsed, receive, eof, reset, broken, udp_reader,
}

abbrev pub total : List (ℕ × ℕ) → ℕ
total [] = 0
total ((code, n) ∷ more) = n + total more

-- every reply is full, truncated or bad, has an rcode, and a latency is that of a full reply
abbrev pub Balanced : Stats → Type 0
Balanced st =
    (st.replies ≡ st.full + st.truncated + st.bad_rcode)
    × (total st.rcodes ≡ st.replies)
    × (length st.lat ≤ st.full)

pub total-count_code : (code : ℕ) (m : List (ℕ × ℕ)) → total (count_code code m) ≡ suc (total m)
unfolding count_code
total-count_code code [] = refl
total-count_code code ((other, n) ∷ more) = ground (arith, total-count_code code more)

-- what `record` does to the counters, for any latency that the tracker gives
filed : Stats → ℕ → Reply → Option ℕ → Stats
unfolding latency_of count_reply add_rcode
filed st size rep d = latency_of rep d (
    count_reply rep
      (add_rcode (record st { replies = st.replies + 1; bytes_in = st.bytes_in + size }) rep.rcode))

filed-Balanced :
    (st : Stats) (size : ℕ) (rep : Reply) (d : Option ℕ)
    → Balanced st
    → Balanced (filed st size rep d)
unfolding filed count_reply latency_of add_rcode add_latency
filed-Balanced st size rep none v = ground (arith, total-count_code rep.rcode st.rcodes)
filed-Balanced st size rep (some d) v =
    ground (arith, total-count_code rep.rcode st.rcodes, length-append st.lat (d ∷ []))

filed-closed :
    (st : Stats) (size : ℕ) (rep : Reply) (d : Option ℕ) → (filed st size rep d).closed ≡ st.closed
unfolding filed count_reply latency_of add_rcode add_latency
filed-closed st size rep none = ground arith
filed-closed st size rep (some d) = ground arith

received-Balanced :
    (st : Stats) (size : ℕ) (r : Result Error Reply) (t : Tracker) (now : ℕ)
    → Balanced st
    → Balanced (receive_parsed st size r t now).0
      × ((receive_parsed st size r t now).0.closed ≡ st.closed)
unfolding receive_parsed record_reply filed
received-Balanced st size (err e) t now v = (v, refl)
received-Balanced st size (ok rep) t now v = (
  filed-Balanced st size rep (took t rep.id now).1 v,
  filed-closed st size rep (took t rep.id now).1,
)

receive-Balanced :
    (st : Stats) (size : ℕ) (msg : Bytes) (t : Tracker) (now : ℕ)
    → Balanced st
    → Balanced (receive st size msg t now).0 × ((receive st size msg t now).0.closed ≡ st.closed)
unfolding receive
receive-Balanced st size msg t now v = received-Balanced st size (parse_reply msg) t now v

-- From counters in which every reply is full, truncated or bad, the rcodes add up to the replies and
-- there are no more latencies than full replies, `udpReader` leaves such counters, whatever datagrams
-- arrive, and counts no closed connection.
pub udp_reader-Balanced :
    (arriving : List (Bytes × ℕ)) (st : Stats) (t : Tracker)
    → Balanced st
    → Balanced (udp_reader arriving st t).0 × ((udp_reader arriving st t).0.closed ≡ st.closed)
unfolding udp_reader
udp_reader-Balanced [] st t v = (v, refl)
udp_reader-Balanced ((datagram, now) ∷ more) st t v =
    let msg = take 65535 datagram in
    let (v', same) = receive-Balanced st (length msg) msg t now v in
    let next = receive st (length msg) msg t now in
    let (w, kept) = udp_reader-Balanced more next.0 next.1 v' in (w, kept ∙ same)

-- whether a reader that reads this often gets to the end of what arrives, and there waits for a frame: it
-- has had frames only, each whole, and lacks the prefix of the next
abbrev pub is_between : List ℕ → Conn → Bool
is_between [] conn = false
is_between (now ∷ later) conn = elim (read_full conn 2) [
  | none ↦ true
  | some got ↦ elim (read_full got.1 (frame_size got.0)) [
    | none ↦ false
    | some read ↦ is_between later read.1
  ]
]

-- whether a connection that ends so was lost to the server
abbrev pub is_lost : End → Bool → Bool
is_lost eof stopped = not stopped
is_lost reset stopped = not stopped
is_lost broken stopped = false

-- a connection is counted closed if it was lost to the server between frames, and not otherwise
abbrev pub CountsEnd : Bool → Stats → Stats → Type 0
CountsEnd lost st st' = st'.closed ≡ st.closed + (if lost then 1 else 0)
