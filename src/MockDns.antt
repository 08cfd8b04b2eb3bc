-- ===== src/MockDns.antt =====
-- bench/cmd/mockdns/main.go: the upstream that answers everything after a delay.
--
-- The delay is not modelled, since it changes no answer. `served` is the counter of answered queries.
-- A connection's goroutine is `serve_conn`; `writes` is how many writes its peer takes before one fails.
-- The listeners and the flags are input and output and are not modelled.
pub mod Service
use elodin.Common.{
  ℕ, zero, suc, ◌+◌, Option, none, some, List, [], ◌∷◌, ◌++◌, ◌==◌, if◌then◌else◌, Bytes, Result,
  ok, err,
}
use elodin.DnsWire.{Error, type_a, question, answer_a, answer_empty}
use elodin.Stream.{Conn, read_frame, frame}

abbrev pub mock_ip : Bytes
mock_ip = 93 ∷ 184 ∷ 216 ∷ 34 ∷ []

-- the answer and the counter
unfoldable pub answer : Bytes → ℕ → ℕ → Result Error Bytes × ℕ
answer query ttl served = elim (question query) [
  | err e ↦ (err e, served)
  | ok (name, qtype) ↦
      (if qtype == type_a then answer_a query mock_ip ttl else answer_empty query, served + 1)
]

-- a goroutine of `serveUDP`: the datagram sent back, if any
unfoldable pub serve_datagram : Bytes → ℕ → ℕ → Option Bytes × ℕ
serve_datagram query ttl served =
    let (resp, served') = answer query ttl served in
    elim resp [ ok out ↦ (some out, served') | err e ↦ (none, served') ]

-- what one round of the loop of `serveTCP` reads and answers; `none` where the goroutine returns
unfoldable pub serve_query : Conn → ℕ → ℕ → Option (Bytes × Conn) × ℕ
serve_query conn ttl served = elim (read_frame conn) [
  | none ↦ (none, served)
  | some (query, conn') ↦
      let (resp, served') = answer query ttl served in
      elim resp [ ok out ↦ (some (frame out, conn'), served') | err e ↦ (none, served') ]
]

-- what a connection is sent, and the counter at its end
unfoldable pub serve_conn : ℕ → Conn → ℕ → ℕ → List Bytes × ℕ
serve_conn zero conn ttl served = ([], (serve_query conn ttl served).1)
serve_conn (suc writes) conn ttl served =
    let (r, served') = serve_query conn ttl served in
    elim r [
      | none ↦ ([], served')
      | some (out, conn') ↦
          let (sent, served_after) = serve_conn writes conn' ttl served' in
          (out ∷ sent, served_after)
    ]
