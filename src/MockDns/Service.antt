-- ===== src/MockDns/Service.antt =====
-- What a client of the mock upstream gets.
use elodin.Common.{
  ℕ, zero, suc, ◌+◌, ◌<◌, ◌≤◌, ◌≡◌, refl, ap, ◌∙◌, Option, none, some, List, [], ◌∷◌, ◌++◌, map,
  ◌==◌, if◌then◌else◌, Bytes, Result, ok, err, length, arith, All, Bool-cases, inl, inr,
}
use elodin.DnsWire.{Error, type_a, question, answer_a, answer_empty}
use elodin.DnsWire.Labels.{IsByte}
use elodin.DnsWire.Answers.{Answers, answer_a-Answers, answer_empty-Answers}
use elodin.Stream.{Conn, read_frame, frame}
use elodin.Stream.Reading.{pending, read_frame-frame, read_full-short}
use elodin.MockDns.{mock_ip, answer, serve_query, serve_conn}

abbrev answers_of : ℕ → ℕ
answers_of qtype = if qtype == type_a then 1 else 0

answer-question :
    (q name : Bytes) (t ttl served : ℕ)
    → question q ≡ ok (name, t)
    → answer q ttl served
      ≡ (if t == type_a then answer_a q mock_ip ttl else answer_empty q, served + 1)
unfolding answer
answer-question q name t ttl served h = rw (h, answer)

-- Every query of bytes that can be read is counted and answered: the reply names the question asked,
-- carries its id, is NOERROR, and has one answer for type A and none for any other type.
pub answer-Answers :
    (q name : Bytes) (t ttl served : ℕ)
    → All IsByte q
    → question q ≡ ok (name, t)
    → Answers q name t
        (if t == type_a then 1 else 0)
        (if t == type_a then 16 else 0)
        (answer q ttl served).0
      × ((answer q ttl served).1 ≡ served + 1)
answer-Answers q name t ttl served b h = elim (Bool-cases (t == type_a)) [
  | inl e ↦
      rw (answer-question q name t ttl served h, e)
        (answer_a-Answers q name mock_ip t ttl b h, refl)
  | inr e ↦ rw (answer-question q name t ttl served h, e) (answer_empty-Answers q name t b h, refl)
]

-- The queries that a client sends on one connection, each with the reply that it gets.
abbrev pub Served : ℕ → List (Bytes × Bytes) → Type 0
Served ttl = All (λ p. (length p.0 < 65536) × (((n : ℕ) → answer p.0 ttl n ≡ (ok p.1, n + 1))))

abbrev pub sent_queries : List (Bytes × Bytes) → Bytes
sent_queries [] = []
sent_queries (p ∷ ps) = frame p.0 ++ sent_queries ps

serve_query-frame :
    (conn conn' : Conn) (q r : Bytes) (ttl n : ℕ)
    → read_frame conn ≡ some (q, conn')
    → answer q ttl n ≡ (ok r, n + 1)
    → serve_query conn ttl n ≡ (some (frame r, conn'), n + 1)
unfolding serve_query
serve_query-frame conn conn' q r ttl n h a = rw (h, serve_query) (ap finish a)
  where
    finish : Result Error Bytes × ℕ → Option (Bytes × Conn) × ℕ
    finish x = elim x.0 [ ok out ↦ (some (frame out, conn'), x.1) | err e ↦ (none, x.1) ]

serve_conn-step :
    (writes : ℕ) (conn conn' : Conn) (out : Bytes) (ttl n m : ℕ)
    → serve_query conn ttl n ≡ (some (out, conn'), m)
    → serve_conn (suc writes) conn ttl n
      ≡ (out ∷ (serve_conn writes conn' ttl m).0, (serve_conn writes conn' ttl m).1)
unfolding serve_conn
serve_conn-step writes conn conn' out ttl n m h = ap go_on h
  where
    go_on : Option (Bytes × Conn) × ℕ → List Bytes × ℕ
    go_on x = elim x.0 [
      | none ↦ ([], x.1)
      | some (out, conn') ↦
          let (sent, served_after) = serve_conn writes conn' ttl x.1 in (out ∷ sent, served_after)
    ]

serve_query-end :
    (conn : Conn) (ttl n : ℕ) → read_frame conn ≡ none → serve_query conn ttl n ≡ (none, n)
unfolding serve_query
serve_query-end conn ttl n h = rw (h, serve_query)

read_frame-end : (conn : Conn) → pending conn ≡ [] → read_frame conn ≡ none
unfolding read_frame
read_frame-end conn h = rw (read_full-short conn 2 (omega (arith, ap length h)), read_frame)

serve_conn-end :
    (writes : ℕ) (conn : Conn) (ttl n : ℕ)
    → pending conn ≡ []
    → serve_conn writes conn ttl n ≡ ([], n)
unfolding serve_conn
serve_conn-end zero conn ttl n h = rw (serve_query-end conn ttl n (read_frame-end conn h))
serve_conn-end (suc writes) conn ttl n h =
    ap go_on (serve_query-end conn ttl n (read_frame-end conn h))
  where
    go_on : Option (Bytes × Conn) × ℕ → List Bytes × ℕ
    go_on x = elim x.0 [
      | none ↦ ([], x.1)
      | some (out, conn') ↦
          let (sent, served_after) = serve_conn writes conn' ttl x.1 in (out ∷ sent, served_after)
    ]

-- Queries of less than 64 KiB that are sent one behind the other on a connection, and are all answered,
-- are answered in their order, one framed reply each, and counted, however the bytes are cut into
-- arrivals. The peer takes at least as many writes as there are queries.
pub serve_conn-queries :
    (ps : List (Bytes × Bytes)) (writes : ℕ) (conn : Conn) (ttl n : ℕ)
    → length ps ≤ writes
    → Served ttl ps
    → pending conn ≡ sent_queries ps
    → serve_conn writes conn ttl n ≡ (map (λ p. frame p.1) ps, n + length ps)
serve_conn-queries [] writes conn ttl n l s h =
    serve_conn-end writes conn ttl n h ∙ ap (λ (k : ℕ). ([], k)) (omega arith)
serve_conn-queries (p ∷ ps) zero conn ttl n l s h = absurd (omega arith)
serve_conn-queries (p ∷ ps) (suc writes) conn ttl n l s h =
    let (conn', reads, left) = read_frame-frame conn p.0 (sent_queries ps) s.0.0 h in
    let later = serve_conn-queries ps writes conn' ttl (n + 1) (omega arith) s.1 left in
    serve_conn-step writes conn conn' (frame p.1) ttl n (n + 1)
      (serve_query-frame conn conn' p.0 p.1 ttl n reads (s.0.1 n))
    ∙ rw later (ap (λ (k : ℕ). (frame p.1 ∷ map (λ p. frame p.1) ps, k)) (omega arith))
