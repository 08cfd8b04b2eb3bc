-- ===== src/Examples/Wire.antt =====
-- Messages of bench/internal/dnswire.
use mathlib.Core.Option
use elodin.Common.{
  ℕ, ◌+◌, ◌<◌, ◌≡◌, refl, false, true, List, [], ◌∷◌, ◌++◌, arith, Bytes, codes, ok, err, value,
  All, length,
}
use elodin.Text.{trim_suffix, split}
use elodin.DnsWire.{
  append_labels, append_name, query, query_with, question, question_end, read_name, read_label,
  skip_name, skip_label, byte_at, u16_at, parse_reply, slice, answer_a, answer_empty, u16_be,
  compression_pointer, name_runs_past,
}
use elodin.DnsWire.Labels.{IsWireLabel, wire, dotted}
use elodin.DnsWire.RoundTrip.{name_text, question-query}
use elodin.DnsWire.Agreement.{question_end-question}
use elodin.DnsWire.Parsed.{question-parsed}
use elodin.DnsWire.Answers.{Answers, answer_a-Answers}
use elodin.DnsWire.Safety.{faults, dnswire-safe}

abbrev ab_c : List Bytes
ab_c = codes "ab" ∷ codes "c" ∷ []

-- a query for ab.c with an EDNS0 record
abbrev small_query : Bytes
small_query =
    0 ∷ 7 ∷ 1 ∷ 0 ∷ 0 ∷ 1 ∷ 0 ∷ 0 ∷ 0 ∷ 0 ∷ 0 ∷ 1 ∷ 2 ∷ b'a' ∷ b'b' ∷ 1 ∷ b'c' ∷ 0 ∷ 0 ∷ 1 ∷ 0 ∷ 1
    ∷ 0 ∷ 0 ∷ 41 ∷ 4 ∷ 208 ∷ 0 ∷ 0 ∷ 0 ∷ 0 ∷ 0 ∷ 0 ∷ []

small_query_made : query 7 (codes "ab.c.") 1 1232 ≡ small_query
unfolding query query_with append_name append_labels trim_suffix split
small_query_made = refl

small_query_asks : question small_query ≡ ok (codes "ab.c.", 1)
unfolding question read_name read_label byte_at u16_at slice
small_query_asks = refl

cut_short :
    question (0 ∷ 0 ∷ 0 ∷ 0 ∷ 0 ∷ 0 ∷ 0 ∷ 0 ∷ 0 ∷ 0 ∷ 0 ∷ 0 ∷ 1 ∷ 65 ∷ []) ≡ err name_runs_past
unfolding question read_name read_label byte_at u16_at slice
cut_short = refl

-- a label of 64 bytes is sent as two bits that mean a pointer, and the message is refused
long_label :
    question_end
      (query 1 (codes "0123456789012345678901234567890123456789012345678901234567890123") 1 0)
    ≡ err compression_pointer
unfolding question_end query query_with append_name append_labels trim_suffix split skip_name
    skip_label byte_at
long_label = refl

question-query_example :
    question (query_with 7 (name_text true ab_c) 28 1232 true) ≡ ok (dotted ab_c, 28)
question-query_example = question-query 7 28 1232 true true ab_c (omega arith) (omega arith)

question_end-question_example :
    value (question_end small_query)
    ≡ Option.map (λ r. length r.0 + 17) (value (question small_query))
question_end-question_example = question_end-question small_query

question-parsed_example :
    (head : Bytes) × (ls : List Bytes) × (c d : ℕ) × (rest : Bytes) × (small_query
      ≡ head ++ (wire ls ++ (0 ∷ (u16_be 1 ++ (c ∷ d ∷ rest)))))
    × (length head ≡ 12)
    × All IsWireLabel ls
    × (codes "ab.c." ≡ dotted ls)
    × (1 < 65536)
question-parsed_example =
    question-parsed small_query (codes "ab.c.") 1 (omega arith) small_query_asks

answer_a-Answers_example :
    Answers small_query (codes "ab.c.") 1 1 16 (answer_a small_query (93 ∷ 184 ∷ 216 ∷ 34 ∷ []) 300)
answer_a-Answers_example =
    answer_a-Answers small_query (codes "ab.c.") (93 ∷ 184 ∷ 216 ∷ 34 ∷ []) 1 300 (omega arith)
      small_query_asks

dnswire-safe_example :
    (faults (parse_reply small_query) ≡ false)
    × (faults (question small_query) ≡ false)
    × (faults (question_end small_query) ≡ false)
    × (faults (answer_a small_query [] 1) ≡ false)
    × (faults (answer_empty small_query) ≡ false)
dnswire-safe_example = dnswire-safe small_query [] 1
