-- ===== src/Experiment/Exchanges.antt =====
-- What the counters of the DoH client and of the handshake flood mean.
use elodin.Common.{
  ℕ, ◌+◌, ◌≤◌, ◌≡◌, Bool, true, false, List, [], ◌∷◌, Bytes, length, length-append, Result, ok, err,
  Bool-cases, inl, inr, ◌==◌, arith, count_if, count_if-cons, ◌&&◌, ◌||◌, not, if◌then◌else◌,
}
use elodin.DnsWire.{Error, Reply, parse_reply}
use elodin.Experiment.Client.{ClientSpec, Stats, add_status, add_rcode, add_latency}
use elodin.Experiment.Counts.{total, total-count_code}
use elodin.Experiment.Doh.{
  Exchange, no_request, no_status, status_of, file_reply, file_response, doh_query, doh_queries,
  Handshake, no_dial, let_go, abandoned, completed, handshake_round, handshake_worker,
}

-- the latencies that are recorded: those of the full replies, if the client tracks them
abbrev pub tracked : Bool → ℕ → ℕ
tracked true n = n
tracked false n = 0

-- every query failed, was refused or has a reply, every reply is full or bad and has an rcode, and only
-- queries without a status are not counted under one
abbrev pub IsSettled : Bool → Stats → Type 0
IsSettled track st =
    (st.offered ≡ st.failed + st.refused + st.replies)
    × (st.replies ≡ st.full + st.bad_rcode)
    × (total st.rcodes ≡ st.replies)
    × (st.refused + st.replies ≤ total st.statuses)
    × (total st.statuses ≤ st.offered)
    × (length st.lat ≡ tracked track st.full)

-- the same but for one query offered, and one status counted, that nothing is counted of yet
abbrev IsPending : Bool → Stats → Type 0
IsPending track st =
    (st.offered ≡ st.failed + st.refused + st.replies + 1)
    × (st.replies ≡ st.full + st.bad_rcode)
    × (total st.rcodes ≡ st.replies)
    × (st.refused + st.replies + 1 ≤ total st.statuses)
    × (total st.statuses ≤ st.offered)
    × (length st.lat ≡ tracked track st.full)

-- which queries of a client are offered, fail, are refused, have a reply, and have an answer
abbrev pub is_offered : Exchange → Bool
is_offered no_request = false
is_offered no_status = true
is_offered (status_of status body whole took) = true

abbrev pub is_reply : (Reply → Bool) → Result Error Reply → Bool
is_reply p (err e) = false
is_reply p (ok rep) = p rep

abbrev pub is_failed : Exchange → Bool
is_failed no_request = false
is_failed no_status = true
is_failed (status_of status body whole took) =
    not whole || (status == 200 && not (is_reply (λ r. true) (parse_reply body)))

abbrev pub is_refused : Exchange → Bool
is_refused no_request = false
is_refused no_status = false
is_refused (status_of status body whole took) = whole && not (status == 200)

abbrev pub is_answered : (Reply → Bool) → Exchange → Bool
is_answered p no_request = false
is_answered p no_status = false
is_answered p (status_of status body whole took) =
    whole && (status == 200 && is_reply p (parse_reply body))

file_reply-IsSettled :
    (track : Bool) (took : ℕ) (r : Result Error Reply) (st : Stats)
    → IsPending track st
    → IsSettled track (file_reply track took r st)
unfolding file_reply add_rcode add_latency
file_reply-IsSettled track took (err e) st v = ground arith
file_reply-IsSettled true took (ok rep) st v =
    ground (arith, total-count_code rep.rcode st.rcodes, length-append st.lat (took ∷ []))
file_reply-IsSettled false took (ok rep) st v = ground (arith, total-count_code rep.rcode st.rcodes)

-- one query offered, and nothing else counted of it yet
abbrev IsAsked : Bool → Stats → Type 0
IsAsked track st =
    (st.offered ≡ st.failed + st.refused + st.replies + 1)
    × (st.replies ≡ st.full + st.bad_rcode)
    × (total st.rcodes ≡ st.replies)
    × (st.refused + st.replies ≤ total st.statuses)
    × (total st.statuses + 1 ≤ st.offered)
    × (length st.lat ≡ tracked track st.full)

file_response-IsSettled :
    (track : Bool) (status : ℕ) (body : Bytes) (whole : Bool) (took : ℕ) (st : Stats)
    → IsAsked track st
    → IsSettled track (file_response track status body whole took st)
unfolding file_response add_status
file_response-IsSettled track status body false took st v =
    ground (arith, total-count_code status st.statuses)
file_response-IsSettled track status body true took st v = elim (Bool-cases (status == 200)) [
  | inr other ↦ rw (file_response, other) (omega (arith, total-count_code status st.statuses))
  | inl fine ↦
      let read = record (add_status st status) {
        bytes_in = (add_status st status).bytes_in + length body;
      } in
      rw (file_response, fine)
        (file_reply-IsSettled track took (parse_reply body) read
          (omega (arith, total-count_code status st.statuses)))
]

doh_query-IsSettled :
    (c : ClientSpec) (tag : Bytes) (track : Bool) (idx seq : ℕ) (exchange : Exchange) (st : Stats)
    → IsSettled track st
    → IsSettled track (doh_query c tag track idx seq exchange st).1
unfolding doh_query
doh_query-IsSettled c tag track idx seq no_request st v = v
doh_query-IsSettled c tag track idx seq no_status st v = omega arith
doh_query-IsSettled c tag track idx seq (status_of status body whole took) st v =
    file_response-IsSettled track status body whole took _ (omega arith)

-- what the queries of a client add to its counters
abbrev pub Adds : List (ℕ × ℕ × Exchange) → Stats → Stats → Type 0
Adds queries st st' =
    (st'.offered ≡ st.offered + count_if (λ q. is_offered q.2) queries)
    × (st'.failed ≡ st.failed + count_if (λ q. is_failed q.2) queries)
    × (st'.refused ≡ st.refused + count_if (λ q. is_refused q.2) queries)
    × (st'.replies ≡ st.replies + count_if (λ q. is_answered (λ r. true) q.2) queries)
    × (st'.full ≡ st.full + count_if (λ q. is_answered (λ r. r.rcode == 0) q.2) queries)

abbrev one : Bool → ℕ
one b = if b then 1 else 0

file_reply-counts :
    (track : Bool) (took : ℕ) (r : Result Error Reply) (st : Stats)
    → let st' = file_reply track took r st in
      (st'.offered ≡ st.offered)
      × (st'.failed ≡ st.failed + one (not (is_reply (λ r. true) r)))
      × (st'.refused ≡ st.refused)
      × (st'.replies ≡ st.replies + one (is_reply (λ r. true) r))
      × (st'.full ≡ st.full + one (is_reply (λ r. r.rcode == 0) r))
unfolding file_reply add_rcode add_latency
file_reply-counts track took (err e) st = ground arith
file_reply-counts true took (ok rep) st = ground arith
file_reply-counts false took (ok rep) st = ground arith

doh_query-Adds :
    (c : ClientSpec) (tag : Bytes) (track : Bool) (idx seq : ℕ) (exchange : Exchange) (st : Stats)
    → Adds ((idx, seq, exchange) ∷ []) st (doh_query c tag track idx seq exchange st).1
unfolding doh_query file_response add_status
doh_query-Adds c tag track idx seq no_request st = ground arith
doh_query-Adds c tag track idx seq no_status st = ground arith
doh_query-Adds c tag track idx seq (status_of status body false took) st = ground arith
doh_query-Adds c tag track idx seq (status_of status body true took) st =
    ground (arith, file_reply-counts track took (parse_reply body))

Adds-cons :
    (q : ℕ × ℕ × Exchange) (queries : List (ℕ × ℕ × Exchange)) (st st' st'' : Stats)
    → Adds (q ∷ []) st st'
    → Adds queries st' st''
    → Adds (q ∷ queries) st st''
Adds-cons q queries st st' st'' (o, f, r, a, w) (o', f', r', a', w') = (
  omega (arith, count_if-cons (λ q. is_offered q.2) q queries),
  omega (arith, count_if-cons (λ q. is_failed q.2) q queries),
  omega (arith, count_if-cons (λ q. is_refused q.2) q queries),
  omega (arith, count_if-cons (λ q. is_answered (λ r. true) q.2) q queries),
  omega (arith, count_if-cons (λ q. is_answered (λ r. r.rcode == 0) q.2) q queries),
)

-- From counters in which every query offered failed, was refused or has a reply, every reply is full or
-- bad and has an rcode, every reply and refusal has a status, no query has two, and there is a latency
-- for each full reply if the client tracks them and none otherwise, the queries of a DoH client leave
-- such counters, whatever their exchanges bring. They add the queries that could be built to those offered;
-- to those failed the ones that got no status, whose body broke off, or whose status is 200 over what is no
-- reply; to those refused the ones with a whole body under another status; to the replies the others, and
-- to those full the replies whose rcode is 0.
pub doh_queries-IsSettled :
    (c : ClientSpec) (tag : Bytes) (track : Bool) (queries : List (ℕ × ℕ × Exchange)) (st : Stats)
    → IsSettled track st
    → IsSettled track (doh_queries c tag track queries st)
      × Adds queries st (doh_queries c tag track queries st)
unfolding doh_queries
doh_queries-IsSettled c tag track [] st v =
    (v, (omega arith, omega arith, omega arith, omega arith, omega arith))
doh_queries-IsSettled c tag track ((idx, seq, exchange) ∷ more) st v =
    let next = (doh_query c tag track idx seq exchange st).1 in
    let (settled, adds) =
      doh_queries-IsSettled c tag track more next
        (doh_query-IsSettled c tag track idx seq exchange st v) in
    (
      settled,
      Adds-cons (idx, seq, exchange) more st next (doh_queries c tag track more next)
          (doh_query-Adds c tag track idx seq exchange st) adds,
    )

-- the counters of a handshake flood
abbrev pub CountsShakes : Stats → Type 0
CountsShakes st = (st.offered ≡ st.full + st.closed + st.failed) × (length st.lat ≡ st.full)

handshake_round-CountsShakes :
    (r : Handshake) (st : Stats) → CountsShakes st → CountsShakes (handshake_round r st)
unfolding handshake_round add_latency
handshake_round-CountsShakes no_dial st v = (omega arith, v.1)
handshake_round-CountsShakes let_go st v = (omega arith, v.1)
handshake_round-CountsShakes abandoned st v = (omega arith, v.1)
handshake_round-CountsShakes (completed took) st v =
    (omega arith, omega (arith, length-append st.lat (took ∷ [])))

-- From counters in which the handshakes attempted are those completed, let go and failed, with a
-- latency for each that was completed, the rounds of a handshake worker leave such counters, however
-- they go.
pub handshake_worker-CountsShakes :
    (rounds : List Handshake) (st : Stats)
    → CountsShakes st
    → CountsShakes (handshake_worker rounds st)
unfolding handshake_worker
handshake_worker-CountsShakes [] st v = v
handshake_worker-CountsShakes (r ∷ rounds) st v =
    handshake_worker-CountsShakes rounds (handshake_round r st)
      (handshake_round-CountsShakes r st v)
