-- ===== src/Experiment/Client.antt =====
-- bench/cmd/rrlexp/main.go (clientSpec, stats) and client.go: what a client counts of what it is sent.
--
-- The counters are atomic and the maps and the latencies are under a mutex, so each addition is one
-- step. A clock reading is a number of nanoseconds. A reader is given the clock readings of its
-- rounds, one for each message, and its loop is followed for as many rounds.
use elodin.Common.{
  ℕ, suc, ◌+◌, ◌-◌, Bool, true, false, not, ◌&&◌, ◌||◌, Option, none, some, List, [], ◌∷◌, ◌++◌,
  ◌==◌, if◌then◌else◌, Bytes, codes, length, take, Result, ok, err,
}
use elodin.Text.{str_eq, decimal}
use elodin.DnsWire.{Error, Reply, parse_reply}
use elodin.Stream.{Conn, read_full, frame_size}

pub record ClientSpec : Type 0 where
  pub src : Bytes
  pub transport : Bytes
  pub rate : ℕ
  pub sockets : ℕ
  pub inflight : ℕ
  pub qmode : Bytes
  pub idle : Bool
  pub redial : Bool
  pub handshake : Bool

unfoldable pub is_doh : ClientSpec → Bool
is_doh c = str_eq c.transport (codes "doh1") || str_eq c.transport (codes "doh2")

-- the client that `runClient` starts, and the listener that it asks
pub data Runner : Type 0 where
  run_handshake_flood_dot run_handshake_flood_doh run_idle_tcp run_tcp_redials : Runner
  run_tcp run_dot run_doh run_udp : Runner

-- `runHandshakeFlood` against `handshakeAddr`
unfoldable pub handshake_addr : ClientSpec → Runner
unfolding is_doh
handshake_addr c = if is_doh c then run_handshake_flood_doh else run_handshake_flood_dot

unfoldable pub run_client : ClientSpec → Runner
unfolding handshake_addr
run_client c =
    if c.handshake
    then handshake_addr c
    else if c.idle
    then run_idle_tcp
    else if c.redial
    then run_tcp_redials
    else if str_eq c.transport (codes "tcp")
    then run_tcp
    else if str_eq c.transport (codes "dot")
    then run_dot
    else if is_doh c
    then run_doh
    else run_udp

-- `clientSpec.name`
unfoldable pub name : ClientSpec → ℕ → ℕ → Bytes → Bytes
name c idx seq tag =
    if str_eq c.qmode (codes "fixed")
    then codes "cached." ++ (tag ++ codes ".rrl.test")
    else codes "q"
      ++ (decimal idx ++ (codes "-" ++ (decimal seq ++ (codes "." ++ (tag ++ codes ".rrl.test")))))

pub record Stats : Type 0 where
  pub offered : ℕ
  pub replies : ℕ
  pub full : ℕ
  pub truncated : ℕ
  pub bad_rcode : ℕ
  pub bytes_in : ℕ
  pub bytes_out : ℕ
  pub closed : ℕ
  pub refused : ℕ
  pub failed : ℕ
  pub dials : ℕ
  pub lat : List ℕ
  pub rcodes : List (ℕ × ℕ)
  pub statuses : List (ℕ × ℕ)

abbrev pub no_stats : Stats
no_stats = record {
  offered = 0;
  replies = 0;
  full = 0;
  truncated = 0;
  bad_rcode = 0;
  bytes_in = 0;
  bytes_out = 0;
  closed = 0;
  refused = 0;
  failed = 0;
  dials = 0;
  lat = [];
  rcodes = [];
  statuses = [];
}

-- `m[code]++`
unfoldable pub count_code : ℕ → List (ℕ × ℕ) → List (ℕ × ℕ)
count_code code [] = (code, 1) ∷ []
count_code code ((other, n) ∷ more) =
    let later = (other, n) ∷ count_code code more in
    if other == code then (other, suc n) ∷ more else later

unfoldable pub add_status : Stats → ℕ → Stats
add_status st code = record st { statuses = count_code code st.statuses }

unfoldable pub add_rcode : Stats → ℕ → Stats
add_rcode st c = record st { rcodes = count_code c st.rcodes }

unfoldable pub add_latency : Stats → ℕ → Stats
add_latency st d = record st { lat = st.lat ++ d ∷ [] }

-- the map from the id of a query to when it was sent
pub record Tracker : Type 0 where
  pub sent : List (ℕ × ℕ)
  pub on : Bool

unfoldable pub new_tracker : Bool → Tracker
new_tracker on = record { sent = []; on = on }

-- `sent[id]`
unfoldable pub sent_at : ℕ → List (ℕ × ℕ) → Option ℕ
sent_at id [] = none
sent_at id ((other, at) ∷ sent) =
    let later = sent_at id sent in if other == id then some at else later

-- `delete(sent, id)`
unfoldable pub delete : ℕ → List (ℕ × ℕ) → List (ℕ × ℕ)
delete id [] = []
delete id ((other, at) ∷ sent) =
    let later = delete id sent in if other == id then later else (other, at) ∷ later

unfoldable pub put : Tracker → ℕ → ℕ → Tracker
put t id now = if not t.on then t else record t { sent = (id, now) ∷ delete id t.sent }

-- how long the reply took, if the query is tracked
unfoldable pub took : Tracker → ℕ → ℕ → Tracker × Option ℕ
took t id now = if not t.on then (t, none) else (
  record t { sent = delete id t.sent },
  elim (sent_at id t.sent) [ none ↦ none | some at ↦ some (now - at) ],
)

-- the switch of `record`
unfoldable pub count_reply : Reply → Stats → Stats
count_reply rep st =
    if rep.truncated
    then record st { truncated = st.truncated + 1 }
    else if not (rep.rcode == 0)
    then record st { bad_rcode = st.bad_rcode + 1 }
    else record st { full = st.full + 1 }

unfoldable pub latency_of : Reply → Option ℕ → Stats → Stats
unfolding add_latency
latency_of rep none st = st
latency_of rep (some d) st = if not rep.truncated && rep.rcode == 0 then add_latency st d else st

-- `record`
unfoldable pub record_reply : Stats → ℕ → Reply → Tracker → ℕ → Stats × Tracker
unfolding add_rcode count_reply latency_of
record_reply st size rep t now =
    let seen = record st { replies = st.replies + 1; bytes_in = st.bytes_in + size } in
    (
      latency_of rep (took t rep.id now).1 (count_reply rep (add_rcode seen rep.rcode)),
      (took t rep.id now).0,
    )

-- what both readers do with a message: one that is no reply is passed over
unfoldable pub receive_parsed : Stats → ℕ → Result Error Reply → Tracker → ℕ → Stats × Tracker
unfolding record_reply
receive_parsed st size (err e) t now = (st, t)
receive_parsed st size (ok rep) t now = record_reply st size rep t now

unfoldable pub receive : Stats → ℕ → Bytes → Tracker → ℕ → Stats × Tracker
unfolding receive_parsed
receive st size msg t now = receive_parsed st size (parse_reply msg) t now

-- `udpReader`: the datagrams that arrive until the socket is closed, and when
unfoldable pub udp_reader : List (Bytes × ℕ) → Stats → Tracker → Stats × Tracker
udp_reader [] st t = (st, t)
udp_reader ((datagram, now) ∷ more) st t =
    let msg = take 65535 datagram in
    let (st', t') = receive st (length msg) msg t now in udp_reader more st' t'

-- why a read fails at the end of a connection
pub data End : Type 0 where
  eof reset broken : End

abbrev pub is_close : End → Bool
is_close eof = true
is_close reset = true
is_close broken = false

-- a failed read that is the server's doing
unfoldable pub count_closed : End → Bool → Stats → Stats
count_closed end stopped st =
    if is_close end && not stopped then record st { closed = st.closed + 1 } else st

-- `tcpReader`; `stopped` is whether the harness had asked for the end when the connection ended
unfoldable pub tcp_reader : List ℕ → Conn → End → Bool → Stats → Tracker → Stats × Tracker
tcp_reader [] conn end stopped st t = (st, t)
tcp_reader (now ∷ later) conn end stopped st t = elim (read_full conn 2) [
  | none ↦ (count_closed end stopped st, t)
  | some (hdr, rest) ↦ elim (read_full rest (frame_size hdr)) [
    | none ↦ (st, t)
    | some (msg, conn') ↦
        let (st', t') = receive st (length msg + 2) msg t now in
        tcp_reader later conn' end stopped st' t'
  ]
]

-- one socket of `runIdle`: not dialled, or dialled, held and at its end
pub data Held : Type 0 where
  not_dialled : Held
  held : Held
  ended : Bool → Held

-- `runIdle` over its sockets; any failed read counts unless the harness had asked for the end
unfoldable pub run_idle : List Held → Stats → Stats
run_idle [] st = st
run_idle (not_dialled ∷ more) st = run_idle more (record st { failed = st.failed + 1 })
run_idle (held ∷ more) st = run_idle more (record st { dials = st.dials + 1 })
run_idle (ended stopped ∷ more) st =
    run_idle more
      (record st { dials = st.dials + 1; closed = if stopped then st.closed else st.closed + 1 })
