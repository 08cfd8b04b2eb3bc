-- ===== src/Experiment/Doh.antt =====
-- bench/cmd/rrlexp/doh.go and tls.go: the DoH client and the client that only shakes hands.
--
-- What an HTTP exchange or a handshake brought is input. Workers share one sequence counter, which each
-- adds to and then reads in two steps, so a run of them is a schedule of such steps.
use elodin.Common.{
  ℕ, zero, suc, ◌+◌, ◌%◌, Bool, true, false, not, List, [], ◌∷◌, ◌==◌, if◌then◌else◌, Bytes, codes,
  length, Result, ok, err,
}
use elodin.Text.{str_eq}
use elodin.DnsWire.{Error, Reply, type_a, query, parse_reply}
use elodin.Experiment.Client.{ClientSpec, name, Stats, add_status, add_rcode, add_latency}
use elodin.Experiment.Pace.{edns_size, pace}

-- what a request brought: none could be built, none got a status, or a status, the bytes of the body
-- that were read, whether that was all of it, and the time since the start
pub data Exchange : Type 0 where
  no_request : Exchange
  no_status : Exchange
  status_of : ℕ → Bytes → Bool → ℕ → Exchange

-- the end of `dohClient.query`, once the body is a reply or not
unfoldable pub file_reply : Bool → ℕ → Result Error Reply → Stats → Stats
unfolding add_rcode add_latency
file_reply track took (err e) st = record st { failed = st.failed + 1 }
file_reply track took (ok rep) st =
    let seen = add_rcode (record st { replies = st.replies + 1 }) rep.rcode in
    if not (rep.rcode == 0)
    then record seen { bad_rcode = seen.bad_rcode + 1 }
    else (let filed = record seen { full = seen.full + 1 } in
        if track then add_latency filed took else filed)

-- what `dohClient.query` counts of a response
unfoldable pub file_response : Bool → ℕ → Bytes → Bool → ℕ → Stats → Stats
unfolding add_status file_reply
file_response track status body whole took st =
    let read = record (add_status st status) { bytes_in = st.bytes_in + length body } in
    if not whole
    then record read { failed = read.failed + 1 }
    else if not (status == 200)
    then record read { refused = read.refused + 1 }
    else file_reply track took (parse_reply body) read

-- `dohClient.query`: the query built, and the counters
unfoldable pub doh_query : ClientSpec → Bytes → Bool → ℕ → ℕ → Exchange → Stats → Bytes × Stats
unfolding file_response
doh_query c tag track idx seq exchange st =
    let q = query (seq % 65536) (name c idx seq tag) type_a edns_size in
    let asked = record st { offered = st.offered + 1; bytes_out = st.bytes_out + length q } in
    (
      q,
      elim exchange [
        | no_request ↦ st
        | no_status ↦ record asked { failed = asked.failed + 1 }
        | status_of status body whole took ↦ file_response track status body whole took asked
      ],
    )

-- the queries of one client, each with its worker and its number
unfoldable pub doh_queries : ClientSpec → Bytes → Bool → List (ℕ × ℕ × Exchange) → Stats → Stats
doh_queries c tag track [] st = st
doh_queries c tag track ((idx, seq, exchange) ∷ more) st =
    doh_queries c tag track more (doh_query c tag track idx seq exchange st).1

-- `dohPacer` as a send of `pace`: a token goes into the channel, unless the client was told to stop.
-- The state is the tokens in the channel and taken, and how many sends come before the stop.
unfoldable pub token_send : ℕ × ℕ → (ℕ × ℕ) × Bool
token_send (tokens, zero) = ((tokens, zero), false)
token_send (tokens, suc before) = ((tokens + 1, before), true)

unfoldable pub doh_pacer : ℕ → ℕ → ℕ → ℕ
unfolding token_send pace
doh_pacer rate rounds before = (pace token_send rate rounds (0, before)).0

-- the workers of one client: the shared counter, which of them have added to it for a query they have
-- not sent yet, and the worker and number of each query sent, the last one first
pub record Workers : Type 0 where
  pub seq : ℕ
  pub added : ℕ → Bool
  pub asked : List (ℕ × ℕ)

abbrev pub no_queries : Workers
no_queries = record { seq = 0; added = λ i. false; asked = [] }

unfoldable pub mark : (ℕ → Bool) → ℕ → Bool → ℕ → Bool
mark added i b j = if j == i then b else added j

-- the next step of worker `i` in `work`: `d.seq.add()`, or the query of number `d.seq.load()`
unfoldable pub work_step : ℕ → Workers → Workers
unfolding mark
work_step i w =
    if w.added i
    then record w { added = mark w.added i false; asked = (i, w.seq) ∷ w.asked }
    else record w { seq = w.seq + 1; added = mark w.added i true }

unfoldable pub work_steps : List ℕ → Workers → Workers
unfolding work_step
work_steps [] w = w
work_steps (i ∷ schedule) w = work_steps schedule (work_step i w)

-- how a round of `handshakeWorker` went: no connection, a handshake that failed while the arm ran and
-- before its deadline, one that failed at the end of the arm or at the deadline, or one completed in a
-- time
pub data Handshake : Type 0 where
  no_dial let_go abandoned : Handshake
  completed : ℕ → Handshake

unfoldable pub handshake_round : Handshake → Stats → Stats
unfolding add_latency
handshake_round no_dial st = record st { offered = st.offered + 1; failed = st.failed + 1 }
handshake_round let_go st = record st { offered = st.offered + 1; closed = st.closed + 1 }
handshake_round abandoned st = record st { offered = st.offered + 1; failed = st.failed + 1 }
handshake_round (completed took) st =
    add_latency (record st { offered = st.offered + 1; full = st.full + 1 }) took

-- `handshakeWorker` over its rounds
unfoldable pub handshake_worker : List Handshake → Stats → Stats
unfolding handshake_round
handshake_worker [] st = st
handshake_worker (r ∷ rounds) st = handshake_worker rounds (handshake_round r st)

unfoldable pub alpn_for : Bytes → Bytes
alpn_for transport =
    if str_eq transport (codes "doh1")
    then codes "http/1.1"
    else if str_eq transport (codes "doh2")
    then codes "h2"
    else codes "dot"
