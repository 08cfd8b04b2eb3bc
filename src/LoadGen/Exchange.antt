-- ===== src/LoadGen/Exchange.antt =====
-- What a client makes of the answers that reach it.
use elodin.Common.{
  ℕ, ◌+◌, ◌*◌, ◌<◌, ◌≤◌, ◌≡◌, ◌≢◌, refl, ap, ◌∙◌, Bool, false, some, List, [], ◌∷◌, ◌++◌, ◌==◌,
  if◌then◌else◌, length, arith, All, Bytes, ok, err, All-append, ◌/◌, ◌%◌,
}
use elodin.DnsWire
use elodin.DnsWire.{parse_reply, type_a, u16_at, header, query, query_with, question}
use elodin.DnsWire.Labels.{IsLabel, IsByte, dotted, wire, u16_at-append}
use elodin.DnsWire.RoundTrip.{name_text, question-query, query_with-wire}
use elodin.MockDns.{answer}
use elodin.MockDns.Service.{answer-Answers}
use elodin.Stream.{Conn, frame, read_full}
use elodin.Stream.Reading.{pending, read_full-append}
use elodin.LoadGen.Clients.{udp_loop, stream_answer, wrong_id}

-- A reply to another query.
abbrev pub IsStale : ℕ → Bytes → Type 0
IsStale id msg = (r : DnsWire.Reply) × (parse_reply msg ≡ ok r) × (r.id ≢ id)

-- Replies to other queries, however many, are passed over: the result is that of the first datagram
-- that is none.
pub udp_loop-stale :
    (id : ℕ) (late : List Bytes) (msg : Bytes) (more : List Bytes) (r : DnsWire.Reply)
    → All (IsStale id) late
    → parse_reply msg ≡ ok r
    → r.id ≡ id
    → udp_loop id (late ++ (msg ∷ more)) ≡ ok r.rcode
unfolding udp_loop
udp_loop-stale id [] msg more r a p e = ground (arith, p)
udp_loop-stale id (l ∷ late) msg more r a p e =
    let (s, q, other) = a.0 in ground (arith, udp_loop-stale id late msg more r a.1 p e, q)

stream_answer_of :
    (id buf : ℕ) (conn conn1 conn2 : Conn) (hi lo : ℕ) (msg : Bytes) (r : DnsWire.Reply)
    → read_full conn 2 ≡ some (hi ∷ lo ∷ [], conn1)
    → hi * 256 + lo ≤ buf
    → read_full conn1 (hi * 256 + lo) ≡ some (msg, conn2)
    → parse_reply msg ≡ ok r
    → stream_answer id buf conn
      ≡ (if r.id == id then ok (r.rcode, conn2) else err (wrong_id r.id id))
unfolding stream_answer
stream_answer_of id buf conn conn1 conn2 hi lo msg r h fits b p = ground arith

-- A framed reply of less than 64 KiB that fits the buffer is read off the connection, however it is cut
-- into arrivals: its rcode is the result if it carries the query's id, and else it is an error.
pub stream_answer-frame :
    (id buf : ℕ) (conn : Conn) (msg rest : Bytes) (r : DnsWire.Reply)
    → pending conn ≡ frame msg ++ rest
    → length msg < 65536
    → length msg ≤ buf
    → parse_reply msg ≡ ok r
    → (conn' : Conn) × (stream_answer id buf conn
        ≡ (if r.id == id then ok (r.rcode, conn') else err (wrong_id r.id id)))
      × (pending conn' ≡ rest)
unfolding frame
stream_answer-frame id buf conn msg rest r h small fits p =
    let n = length msg in
    let (conn1, hdr, left) =
      read_full-append conn ((n / 256 % 256) ∷ (n % 256) ∷ []) (msg ++ rest) h in
    let (conn2, body, left') = read_full-append conn1 msg rest left in
    let size : n / 256 % 256 * 256 + n % 256 ≡ n = omega arith in
    (
      conn2,
      stream_answer_of id buf conn conn1 conn2 (n / 256 % 256) (n % 256) msg r hdr (omega arith)
          (rw size body) p,
      left',
    )

-- The bytes of a query are bytes.
wire-IsByte : (ls : List Bytes) → All (All IsByte) ls → All IsByte (wire ls)
wire-IsByte [] h = tt
wire-IsByte (l ∷ ls) h = (omega arith, All-append IsByte l (wire ls) h.0 (wire-IsByte ls h.1))

query-IsByte :
    (id : ℕ) (dot : Bool) (ls : List Bytes)
    → All IsLabel ls
    → All (All IsByte) ls
    → All IsByte (query id (name_text dot ls) type_a 1232)
unfolding query
query-IsByte id dot ls a b = rw (query_with-wire id type_a 1232 false dot ls a) (
    All-append IsByte (header id 1) _ (omega arith)
      (All-append IsByte (wire ls) _ (wire-IsByte ls b) (omega arith)))

query-id :
    (id : ℕ) (dot : Bool) (ls : List Bytes)
    → id < 65536
    → All IsLabel ls
    → u16_at (query id (name_text dot ls) type_a 1232) 0 ≡ ok id
unfolding query
query-id id dot ls h a =
    rw (query_with-wire id type_a 1232 false dot ls a) (u16_at-append [] _ id 0 refl h)

-- A reply to the query with no error in it is read as such by both clients.
abbrev ReadsClean : ℕ → Bytes → Type 0
ReadsClean id r =
    ((more : List Bytes) → udp_loop id (r ∷ more) ≡ ok 0)
    × ((conn : Conn) (rest : Bytes)
        → pending conn ≡ frame r ++ rest
        → (conn' : Conn) × (stream_answer id 65535 conn ≡ ok (0, conn')) × (pending conn' ≡ rest))

clean_reply :
    (id : ℕ) (r : Bytes) (rep : DnsWire.Reply)
    → parse_reply r ≡ ok rep
    → rep.id ≡ id
    → rep.rcode ≡ 0
    → length r < 65536
    → ReadsClean id r
clean_reply id r rep p same clean small = (
  λ more. udp_loop-stale id [] r more rep tt p same ∙ ap ok clean,
  λ conn rest h.
      let (conn', reads, left) =
        stream_answer-frame id 65535 conn r rest rep h small (omega arith) p in
      (conn', reads ∙ ground arith, left),
)

-- A client that asks the mock upstream for the address of a name of labels, and gets the reply `r`,
-- reads it as NOERROR: over UDP whatever arrives behind it, and over a stream whatever follows it and
-- however the bytes are cut into arrivals. The name is shorter than 60,000 bytes, so that the length of
-- the reply fits its two bytes.
pub mock-client :
    (id ttl served : ℕ) (dot : Bool) (ls more : List Bytes) (r rest : Bytes) (conn : Conn)
    → id < 65536
    → All IsLabel ls
    → All (All IsByte) ls
    → length (dotted ls) < 60000
    → (answer (query id (name_text dot ls) type_a 1232) ttl served).0 ≡ ok r
    → pending conn ≡ frame r ++ rest
    → (udp_loop id (r ∷ more) ≡ ok 0)
      × (conn' : Conn) × (stream_answer id 65535 conn ≡ ok (0, conn'))
      × (pending conn' ≡ rest)
mock-client id ttl served dot ls more r rest conn h a b small got arrived =
    let q = query id (name_text dot ls) type_a 1232 in
    let asked : question q ≡ ok (dotted ls, type_a) =
      unfold query in question-query id type_a 1232 false dot ls (omega arith) a in
    let ((r', id', made, id_read, _, reply, size), _) =
      answer-Answers q (dotted ls) type_a ttl served (query-IsByte id dot ls a b) asked in
    let same : id' ≡ id = ground (arith, query-id id dot ls h a) in
    let same_reply : r' ≡ r = cc in
    let (datagram, stream) = clean_reply id r' _ reply same refl (omega arith) in
    let (conn', reads, left) = stream conn rest (rw (← same_reply) at arrived) in
    (rw same_reply at (datagram more), conn', reads, left)
