-- ===== src/Experiment/Records.antt =====
-- The answer with many records that the experiment's mock gives.
use elodin.Common.{
  ℕ, zero, suc, ◌+◌, ◌-◌, ◌*◌, ◌%◌, ◌≤◌, ◌<◌, ◌≡◌, refl, [], ◌∷◌, ◌++◌, append_assoc, Bytes, All,
  ok, length, length-append, arith,
}
use elodin.DnsWire.{put_u16, question, a_record}
use elodin.DnsWire.Labels.{IsByte}
use elodin.DnsWire.Answers.{
  Answers, answer_fields, copied-shape, answer_a-copied, parse_reply-fields,
}
use elodin.Experiment.Mock.{more_records, answer}

length-more_records : (ttl i left : ℕ) → length (more_records ttl i left) ≡ 16 * left
unfolding more_records
length-more_records ttl i zero = refl
length-more_records ttl i (suc left) = omega (
  arith,
  length-more_records ttl (i + 1) left,
  length-append (a_record (203 ∷ 0 ∷ 113 ∷ ((1 + i % 250) % 256) ∷ []) ttl)
      (more_records ttl (i + 1) left),
)

-- the count of a header with one answer, written over
put_u16-count :
    (x y n : ℕ) (rest : Bytes)
    → put_u16 (x ∷ y ∷ (answer_fields 1 ++ rest)) 6 n ≡ ok (x ∷ y ∷ (answer_fields n ++ rest))
unfolding put_u16
put_u16-count x y n rest = ground arith

-- For every query of bytes that `Question` reads and every number of records below 65,536, of which
-- there is at least one, the mock's `answer` is a reply that asks the same question and that
-- `ParseReply` reads as the query's id, NOERROR and that many answers; it is 16 bytes for each of them
-- longer than the header and the question.
answer-records :
    (q name : Bytes) (t records ttl : ℕ)
    → All IsByte q
    → question q ≡ ok (name, t)
    → 1 ≤ records
    → records < 65536
    → Answers q name t records (16 * records) (answer q records ttl)
unfolding answer
answer-records q name t records ttl b h some_records few =
    let (x, y, section, made, id, (size, reads)) = copied-shape q name t 1 b h in
    let first = a_record (203 ∷ 0 ∷ 113 ∷ 1 ∷ []) ttl in
    let more = more_records ttl 1 (records - 1) in
    let rest = section ++ (first ++ more) in
    let head = x ∷ y ∷ answer_fields records in
    (
      head ++ rest,
      x * 256 + y,
      rw
          (
            answer_a-copied q (203 ∷ 0 ∷ 113 ∷ 1 ∷ []) (x ∷ y ∷ (answer_fields 1 ++ section)) ttl
                made,
            append_assoc section first more,
          )
          (put_u16-count x y records rest),
      id,
      reads head (first ++ more) refl,
      parse_reply-fields x y records rest few,
      omega (
        arith,
        length-append section (first ++ more),
        length-append first more,
        length-more_records ttl 1 (records - 1),
      ),
    )
