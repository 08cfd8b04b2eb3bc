-- ===== src/Examples/Services.antt =====
-- The mock upstream, the streams and the load generator's clients.
use mathlib.Core.List.{flatten}
use elodin.Common.{ℕ, ◌+◌, ◌≡◌, refl, false, List, [], ◌∷◌, ◌++◌, arith, Bytes, ok, some, map}
use elodin.DnsWire
use elodin.DnsWire.{
  query, query_with, append_name, append_labels, question, question_end, read_name, read_label,
  skip_name, skip_label, byte_at, u16_at, parse_reply, put_header, put_u16, slice, answer_a,
  answer_empty, type_a,
}
use elodin.Text.{trim_suffix, split, join}
use elodin.DnsWire.RoundTrip.{name_text}
use elodin.Stream.{Conn, read_frame, frame}
use elodin.Stream.Reading.{pending, read_frame-frame}
use elodin.MockDns.{answer, serve_conn}
use elodin.MockDns.Service.{serve_conn-queries}
use elodin.LoadGen.Clients.{udp_loop, stream_answer}
use elodin.LoadGen.Exchange.{mock-client}

abbrev root_query : Bytes
root_query = 0 ∷ 9 ∷ 1 ∷ 0 ∷ 0 ∷ 1 ∷ 0 ∷ 0 ∷ 0 ∷ 0 ∷ 0 ∷ 0 ∷ 0 ∷ 0 ∷ 1 ∷ 0 ∷ 1 ∷ []

abbrev root_reply : Bytes
root_reply =
    0 ∷ 9 ∷ 129 ∷ 128 ∷ 0 ∷ 1 ∷ 0 ∷ 1 ∷ 0 ∷ 0 ∷ 0 ∷ 0 ∷ 0 ∷ 0 ∷ 1 ∷ 0 ∷ 1 ∷ 192 ∷ 12 ∷ 0 ∷ 1 ∷ 0 ∷ 1
    ∷ 0 ∷ 0 ∷ 1 ∷ 44 ∷ 0 ∷ 4 ∷ 93 ∷ 184 ∷ 216 ∷ 34 ∷ []

root_asks : question root_query ≡ ok ([], 1)
unfolding question read_name read_label byte_at u16_at slice
root_asks = refl

root_answered : (n : ℕ) → answer root_query 300 n ≡ (ok root_reply, n + 1)
unfolding answer answer_a question question_end read_name read_label skip_name skip_label byte_at
    u16_at slice put_header put_u16
root_answered n = refl

abbrev root_read : DnsWire.Reply
root_read = record { id = 9; rcode = 0; an_count = 1; truncated = false; ad = false }

root_reply_read : parse_reply root_reply ≡ ok root_read
unfolding parse_reply u16_at byte_at
root_reply_read = refl

-- three bytes that arrive as one and two
abbrev cut_up : Conn
cut_up = (5 ∷ []) ∷ [] ∷ (6 ∷ 7 ∷ 8 ∷ []) ∷ []

cut_up-pending : pending cut_up ≡ 5 ∷ 6 ∷ 7 ∷ 8 ∷ []
unfolding flatten
cut_up-pending = refl

abbrev framed : Conn
framed = (0 ∷ []) ∷ (3 ∷ 5 ∷ []) ∷ (6 ∷ 7 ∷ 8 ∷ []) ∷ []

framed-pending : pending framed ≡ frame (5 ∷ 6 ∷ 7 ∷ []) ++ 8 ∷ []
unfolding frame flatten
framed-pending = refl

read_frame-frame_example :
    (conn' : Conn) × (read_frame framed ≡ some (5 ∷ 6 ∷ 7 ∷ [], conn')) × (pending conn' ≡ 8 ∷ [])
read_frame-frame_example =
    read_frame-frame framed (5 ∷ 6 ∷ 7 ∷ []) (8 ∷ []) (omega arith) framed-pending

abbrev two_queries : List (Bytes × Bytes)
two_queries = (root_query, root_reply) ∷ (root_query, root_reply) ∷ []

-- the two queries arrive in pieces that end inside a message
abbrev query_pieces : Conn
query_pieces =
    (0 ∷ 17 ∷ 0 ∷ 9 ∷ 1 ∷ [])
    ∷ (0 ∷ 0 ∷ 1 ∷ 0 ∷ 0 ∷ 0 ∷ 0 ∷ 0 ∷ 0 ∷ 0 ∷ 0 ∷ 1 ∷ 0 ∷ 1 ∷ 0 ∷ [])
    ∷ ((17 ∷ []) ++ root_query)
    ∷ []

query_pieces-pending : pending query_pieces ≡ frame root_query ++ (frame root_query ++ [])
unfolding frame flatten
query_pieces-pending = refl

serve_conn-queries_example : serve_conn 2 query_pieces 300 0 ≡ (map (λ p. frame p.1) two_queries, 2)
serve_conn-queries_example =
    serve_conn-queries two_queries 2 query_pieces 300 0 (omega arith)
      ((omega arith, root_answered), ((omega arith, root_answered), tt)) query_pieces-pending

-- a late reply to query 8
abbrev late_reply : Bytes
late_reply = 0 ∷ 8 ∷ 129 ∷ 128 ∷ 0 ∷ 1 ∷ 0 ∷ 0 ∷ 0 ∷ 0 ∷ 0 ∷ 0 ∷ 0 ∷ 0 ∷ 1 ∷ 0 ∷ 1 ∷ []

abbrev late_read : DnsWire.Reply
late_read = record { id = 8; rcode = 0; an_count = 0; truncated = false; ad = false }

late_reply_read : parse_reply late_reply ≡ ok late_read
unfolding parse_reply u16_at byte_at
late_reply_read = refl

abbrev reply_conn : Conn
reply_conn = (0 ∷ 33 ∷ []) ∷ root_reply ∷ []

reply_conn-pending : pending reply_conn ≡ frame root_reply ++ []
unfolding frame flatten
reply_conn-pending = refl

root_query_answered : (answer (query 9 (name_text false []) type_a 1232) 300 0).0 ≡ ok root_reply
unfolding answer answer_a question question_end read_name read_label skip_name skip_label byte_at
    u16_at slice put_header put_u16 query query_with append_name append_labels trim_suffix split
    join
root_query_answered = refl

mock-client_example :
    (udp_loop 9 (root_reply ∷ []) ≡ ok 0)
    × (conn' : Conn) × (stream_answer 9 65535 reply_conn ≡ ok (0, conn'))
    × (pending conn' ≡ [])
mock-client_example =
    mock-client 9 300 0 false [] [] root_reply [] reply_conn (omega arith) tt tt (omega arith)
      root_query_answered reply_conn-pending
