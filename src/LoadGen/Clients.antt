-- ===== src/LoadGen/Clients.antt =====
-- The clients of the load generator: one query over UDP, a stream or DoH, and the names of the rcodes.
use elodin.Common.{
  ℕ, Bool, true, false, not, ◌&&◌, Option, none, some, List, [], ◌∷◌, ◌++◌, ◌==◌, ltb,
  if◌then◌else◌, Bytes, codes, Result, ok, err, ◌>>=◌, ◌>>◌, guard,
}
use elodin.Text.{decimal}
use elodin.DnsWire.{type_a, query, parse_reply}
use elodin.DnsWire
use elodin.Stream.{Conn, read_full, frame, frame_size}

pub data Transport : Type 0 where
  udp tcp dot doh1 doh2 handshake : Transport

pub data Error : Type 0 where
  deadline_not_set : Error
  not_written : Error
  not_read : Error
  too_large : ℕ → Error
  bad_reply : DnsWire.Error → Error
  wrong_id : ℕ → ℕ → Error
  not_sent : Error
  bad_status : ℕ → Error
  wrong_protocol : Error

abbrev pub is_doh : Transport → Bool
is_doh doh1 = true
is_doh doh2 = true
is_doh _ = false

abbrev pub needs_roots : Transport → Bool
needs_roots dot = true
needs_roots handshake = true
needs_roots _ = false

-- the two refusals of `main`: no certificate to trust, and pipelining without DoH
unfoldable pub accepts_flags : Transport → ℕ → Bool → Bool
accepts_flags transport concurrency has_roots =
    if needs_roots transport && not has_roots
    then false
    else not (ltb 1 concurrency && not (is_doh transport))

unfoldable pub rcode_name : ℕ → Bytes
unfolding decimal
rcode_name rc =
    if rc == 0
    then codes "noerror"
    else if rc == 2
    then codes "servfail"
    else if rc == 3
    then codes "nxdomain"
    else if rc == 5
    then codes "refused"
    else codes "rcode" ++ decimal rc

abbrev pub reply_of : Bytes → Result Error DnsWire.Reply
reply_of msg = elim (parse_reply msg) [ ok r ↦ ok r | err e ↦ err (bad_reply e) ]

-- how a call of the operating system went
pub record Calls : Type 0 where
  pub deadline_set : Bool
  pub written : Bool

-- the loop of `udpClient.Query` over the datagrams that arrive before the deadline: a reply to another
-- query is passed over
unfoldable pub udp_loop : ℕ → List Bytes → Result Error ℕ
udp_loop id [] = err not_read
udp_loop id (datagram ∷ more) = reply_of datagram >>= λ reply.
    let rest = udp_loop id more in if not (reply.id == id) then rest else ok reply.rcode

-- the query sent, and the result
unfoldable pub udp_query : ℕ → Bytes → Calls → List Bytes → Bytes × Result Error ℕ
unfolding udp_loop
udp_query id name calls arriving = (
  query id name type_a 1232,
  (do
    guard calls.deadline_set deadline_not_set
    guard calls.written not_written
    udp_loop id arriving),
)

abbrev pub read_or_fail : Option (Bytes × Conn) → Result Error (Bytes × Conn)
read_or_fail none = err not_read
read_or_fail (some r) = ok r

-- the result of `streamClient.Query` and what it leaves on the connection; `buf` is the length of the
-- client's buffer
unfoldable pub stream_answer : ℕ → ℕ → Conn → Result Error (ℕ × Conn)
stream_answer id buf conn = do
  hdr ← read_or_fail (read_full conn 2)
  guard (not (ltb buf (frame_size hdr.0))) (too_large (frame_size hdr.0))
  body ← read_or_fail (read_full hdr.1 (frame_size hdr.0))
  reply ← reply_of body.0
  guard (reply.id == id) (wrong_id reply.id id)
  ok (reply.rcode, body.1)

unfoldable pub stream_query : ℕ → Bytes → ℕ → Calls → Conn → Bytes × Result Error (ℕ × Conn)
unfolding stream_answer
stream_query id name buf calls conn = (
  frame (query id name type_a 1232),
  (do
    guard calls.deadline_set deadline_not_set
    guard calls.written not_written
    stream_answer id buf conn),
)

-- what an HTTP exchange brought: nothing, or a status, whether the protocol was HTTP/2, and a body
-- that may have been cut off
pub record Response : Type 0 where
  pub status : ℕ
  pub is_h2 : Bool
  pub body : Option Bytes

-- `dohClient.Query`
unfoldable pub doh_query : ℕ → Bytes → Option Response → Bytes × Result Error ℕ
doh_query id name none = (query id name type_a 0, err not_sent)
doh_query id name (some resp) = (
  query id name type_a 0,
  elim resp.body [
    | none ↦ err not_read
    | some body ↦ (do
      guard (resp.status == 200) (bad_status resp.status)
      reply ← reply_of body
      guard (reply.id == id) (wrong_id reply.id id)
      ok reply.rcode)
  ],
)

-- `dohClient.probe`: the listener must speak the version of HTTP that was asked for
unfoldable pub probe : Transport → Option Response → Result Error (Unit {0})
probe want none = err not_sent
probe doh2 (some resp) = guard resp.is_h2 wrong_protocol
probe doh1 (some resp) = guard (not resp.is_h2) wrong_protocol
probe want (some resp) = ok tt
