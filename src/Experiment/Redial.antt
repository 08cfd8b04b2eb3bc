-- ===== src/Experiment/Redial.antt =====
-- bench/cmd/rrlexp/client.go: the clients that open connections, runStream, runIdle (in Client) and
-- runTCPRedial, and that each connection they ask for is counted once.
use elodin.Common.{
  ℕ, suc, ◌<◌, ap, ◌∙◌, ◌==◌, if◌then◌else◌, ◌+◌, ◌%◌, ◌≤◌, ◌≡◌, refl, Bool, true, false, Option,
  none, some, List, [], ◌∷◌, Bytes, length, Result, ok, err, arith, Option-cases, inl, inr,
}
use elodin.DnsWire.{Error, Reply, type_a, query, parse_reply}
use elodin.Stream.{Conn, frame, frame_size, read_full}
use elodin.Experiment.Client.{
  ClientSpec, name, Stats, Tracker, put, took, receive, receive_parsed, record_reply, add_rcode,
  add_latency, count_reply, latency_of, Held, not_dialled, held, ended, run_idle,
}
use elodin.Experiment.Pace.{edns_size}

-- the loop of `runStream` over its dials, whether each succeeds, and how many connections it has
unfoldable pub dial_all : List Bool → Stats → ℕ → Stats × ℕ
dial_all [] st conns = (st, conns)
dial_all (true ∷ dials) st conns = dial_all dials st (conns + 1)
dial_all (false ∷ dials) st conns = dial_all dials (record st { failed = st.failed + 1 }) conns

-- `runStream` up to where it has its connections; `none` where it stops the program
unfoldable pub run_stream : List Bool → Stats → Option (Stats × ℕ)
unfolding dial_all
run_stream dials st =
    let (st', conns) = dial_all dials st 0 in if conns == 0 then none else some (st', conns)

-- how a dial of `runTCPRedial` fared, and what the connection then brings: whether it takes the query,
-- what arrives, and the clock at the send and at the reply
pub data Attempt : Type 0 where
  no_connection : Attempt
  connected : Bool → Conn → ℕ → ℕ → Attempt

-- what is read back on one connection
unfoldable pub redial_read : Conn → ℕ → Stats → Tracker → Stats × Tracker
redial_read conn now st t = elim (read_full conn 2) [
  | none ↦ (record st { closed = st.closed + 1 }, t)
  | some (hdr, rest) ↦ elim (read_full rest (frame_size hdr)) [
    | none ↦ (st, t)
    | some (msg, conn') ↦ receive st (length msg + 2) msg t now
  ]
]

-- one send of `runTCPRedial`, the query of number `seq`
unfoldable pub redial_send : ClientSpec → Bytes → ℕ → Attempt → Stats → Tracker → Stats × Tracker
unfolding redial_read
redial_send c tag seq no_connection st t =
    (record st { offered = st.offered + 1; failed = st.failed + 1 }, t)
redial_send c tag seq (connected false conn asked now) st t = (
  record st { offered = st.offered + 1; dials = st.dials + 1; closed = st.closed + 1 },
  put t (seq % 65536) asked,
)
redial_send c tag seq (connected true conn asked now) st t =
    let q = frame (query (seq % 65536) (name c 0 seq tag) type_a edns_size) in
    redial_read conn now
      (record st {
        offered = st.offered + 1;
        dials = st.dials + 1;
        bytes_out = st.bytes_out + length q;
      })
      (put t (seq % 65536) asked)

-- the sends of `runTCPRedial`; every one lets the loop of `pace` go on
unfoldable pub run_tcp_redial :
    ClientSpec → Bytes → ℕ → List Attempt → Stats → Tracker → Stats × Tracker
unfolding redial_send
run_tcp_redial c tag seq [] st t = (st, t)
run_tcp_redial c tag seq (a ∷ attempts) st t =
    let (st', t') = redial_send c tag (seq + 1) a st t in
    run_tcp_redial c tag (seq + 1) attempts st' t'

-- every query was refused a connection or had one of its own, and a connection brings a reply or is
-- counted closed, or neither
abbrev pub CountsDials : Stats → Type 0
CountsDials st = (st.offered ≡ st.failed + st.dials) × (st.closed + st.replies ≤ st.dials)

-- what a reply leaves alone, and that it is counted at most once
abbrev pub AddsReply : Stats → Stats → Type 0
AddsReply st st' =
    (st'.offered ≡ st.offered)
    × (st'.failed ≡ st.failed)
    × (st'.dials ≡ st.dials)
    × (st'.closed + st'.replies ≤ st.closed + st.replies + 1)

filed-AddsReply :
    (st : Stats) (size : ℕ) (rep : Reply) (d : Option ℕ)
    → AddsReply st (
        latency_of rep d (
          count_reply rep (
            add_rcode
              (record st { replies = st.replies + 1; bytes_in = st.bytes_in + size })
              rep.rcode)))
unfolding latency_of count_reply add_rcode add_latency
filed-AddsReply st size rep none = ground arith
filed-AddsReply st size rep (some d) = ground arith

received-AddsReply :
    (st : Stats) (size : ℕ) (r : Result Error Reply) (t : Tracker) (now : ℕ)
    → AddsReply st (receive_parsed st size r t now).0
unfolding receive_parsed record_reply
received-AddsReply st size (err e) t now = (refl, refl, refl, omega arith)
received-AddsReply st size (ok rep) t now = filed-AddsReply st size rep (took t rep.id now).1

redial_read-AddsReply :
    (conn : Conn) (now : ℕ) (st : Stats) (t : Tracker) → AddsReply st (redial_read conn now st t).0
unfolding redial_read receive
redial_read-AddsReply conn now st t = elim (Option-cases (read_full conn 2)) [
  | inl lost ↦ rw (redial_read, lost) (refl, refl, refl, omega arith)
  | inr ((hdr, rest), got) ↦ elim (Option-cases (read_full rest (frame_size hdr))) [
    | inl lost ↦ rw (redial_read, got, lost) (refl, refl, refl, omega arith)
    | inr ((msg, conn'), read) ↦
        rw (redial_read, got, read) (received-AddsReply st (length msg + 2) (parse_reply msg) t now)
  ]
]

redial_send-CountsDials :
    (c : ClientSpec) (tag : Bytes) (seq : ℕ) (a : Attempt) (st : Stats) (t : Tracker)
    → CountsDials st
    → CountsDials (redial_send c tag seq a st t).0
unfolding redial_send
redial_send-CountsDials c tag seq no_connection st t v = (omega arith, omega arith)
redial_send-CountsDials c tag seq (connected false conn asked now) st t v =
    (omega arith, omega arith)
redial_send-CountsDials c tag seq (connected true conn asked now) st t v =
    let q = frame (query (seq % 65536) (name c 0 seq tag) type_a edns_size) in
    let st' = record st {
      offered = st.offered + 1;
      dials = st.dials + 1;
      bytes_out = st.bytes_out + length q;
    } in
    let (o, f, d, r) = redial_read-AddsReply conn now st' (put t (seq % 65536) asked) in
    (omega arith, omega arith)

-- From counters in which the queries offered are the failed dials and the connections, and closed
-- connections and replies together are no more than the connections, `runTCPRedial` leaves such
-- counters however its dials and connections fare.
run_tcp_redial-CountsDials :
    (c : ClientSpec) (tag : Bytes) (seq : ℕ) (attempts : List Attempt) (st : Stats) (t : Tracker)
    → CountsDials st
    → CountsDials (run_tcp_redial c tag seq attempts st t).0
unfolding run_tcp_redial
run_tcp_redial-CountsDials c tag seq [] st t v = v
run_tcp_redial-CountsDials c tag seq (a ∷ attempts) st t v =
    let next = redial_send c tag (seq + 1) a st t in
    run_tcp_redial-CountsDials c tag (seq + 1) attempts next.0 next.1
      (redial_send-CountsDials c tag (seq + 1) a st t v)

-- `runIdle` counts each of its sockets once, as a failed dial or as a connection, and counts no more
-- connections closed than it opened.
pub run_idle-sockets :
    (sockets : List Held) (st : Stats)
    → ((run_idle sockets st).dials + (run_idle sockets st).failed
        ≡ st.dials + st.failed + length sockets)
      × (st.dials ≤ (run_idle sockets st).dials)
      × ((run_idle sockets st).closed + st.dials ≤ st.closed + (run_idle sockets st).dials)
unfolding run_idle
run_idle-sockets [] st = (omega arith, omega arith, omega arith)
run_idle-sockets (not_dialled ∷ more) st =
    let (sum, grown, closed) = run_idle-sockets more (record st { failed = st.failed + 1 }) in
    (omega arith, omega arith, omega arith)
run_idle-sockets (held ∷ more) st =
    let (sum, grown, closed) = run_idle-sockets more (record st { dials = st.dials + 1 }) in
    (omega arith, omega arith, omega arith)
run_idle-sockets (ended true ∷ more) st =
    let (sum, grown, closed) =
      run_idle-sockets more (record st { dials = st.dials + 1; closed = st.closed }) in
    (omega arith, omega arith, omega arith)
run_idle-sockets (ended false ∷ more) st =
    let (sum, grown, closed) =
      run_idle-sockets more (record st { dials = st.dials + 1; closed = st.closed + 1 }) in
    (omega arith, omega arith, omega arith)

-- the dials that fail
abbrev pub failures : List Bool → ℕ
failures [] = 0
failures (true ∷ dials) = failures dials
failures (false ∷ dials) = suc (failures dials)

dial_all-eq :
    (dials : List Bool) (st : Stats) (conns : ℕ)
    → (dial_all dials st conns).0 ≡ record st { failed = st.failed + failures dials }
unfolding dial_all
dial_all-eq [] st conns = ap (λ n. record st { failed = n }) {y = st.failed + 0} (omega arith)
dial_all-eq (true ∷ dials) st conns = dial_all-eq dials st (conns + 1)
dial_all-eq (false ∷ dials) st conns =
    dial_all-eq dials (record st { failed = st.failed + 1 }) conns
    ∙ ap (λ n. record st { failed = n }) {y = st.failed + suc (failures dials)} (omega arith)

dial_all-conns :
    (dials : List Bool) (st : Stats) (conns : ℕ)
    → (dial_all dials st conns).1 + failures dials ≡ conns + length dials
unfolding dial_all
dial_all-conns [] st conns = omega arith
dial_all-conns (true ∷ dials) st conns = omega (arith, dial_all-conns dials st (conns + 1))
dial_all-conns (false ∷ dials) st conns =
    omega (arith, dial_all-conns dials (record st { failed = st.failed + 1 }) conns)

-- If some dial succeeds, `runStream` goes on with a connection for each dial that does, and all it has
-- counted is the dials that do not.
pub run_stream-connections :
    (dials : List Bool) (st : Stats)
    → failures dials < length dials
    → (conns : ℕ) × (run_stream dials st
        ≡ some (record st { failed = st.failed + failures dials }, conns))
      × (conns + failures dials ≡ length dials)
unfolding run_stream
run_stream-connections dials st some_dial =
    let sum = dial_all-conns dials st 0 in
    let opened : ((dial_all dials st 0).1 == 0) ≡ false = ground (arith, sum, some_dial) in
    ((dial_all dials st 0).1, rw (run_stream, opened, dial_all-eq dials st 0) refl, omega arith)
