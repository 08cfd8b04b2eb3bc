-- ===== src/DnsWire/Answers.antt =====
-- The answers that the mock upstream builds over a query.
use elodin.Common.{
  ℕ, ◌+◌, ◌*◌, ◌%◌, ◌/◌, ◌<◌, ◌≡◌, refl, sym, ap, ◌∙◌, false, List, [], ◌∷◌, ◌++◌, append_assoc,
  append-nil, arith, Bytes, length, length-append, Result, ok, ◌>>=◌, All, take-append_self,
}
use elodin.DnsWire.{
  u16_be, Error, u16_at, byte_at, slice, question, question_end, put_u16, put_header, answer_a,
  answer_empty, a_record, parse_reply,
}
use elodin.DnsWire.Labels.{IsWireLabel, IsByte, wire, dotted}
use elodin.DnsWire.RoundTrip.{question-wire}
use elodin.DnsWire.Agreement.{question_end-ok}
use elodin.DnsWire.Parsed.{question-parsed}

-- The ten bytes that the answers write behind the id.
abbrev pub answer_fields : ℕ → Bytes
answer_fields n = 0x81 ∷ 0x80 ∷ 0 ∷ 1 ∷ (n / 256 % 256) ∷ (n % 256) ∷ 0 ∷ 0 ∷ 0 ∷ 0 ∷ []

pub put_header-eq :
    (a b c d e f g h i j k l : ℕ) (rest : Bytes) (n : ℕ)
    → put_header (a ∷ b ∷ c ∷ d ∷ e ∷ f ∷ g ∷ h ∷ i ∷ j ∷ k ∷ l ∷ rest) n
      ≡ ok (a ∷ b ∷ (answer_fields n ++ rest))
unfolding put_header put_u16
put_header-eq a b c d e f g h i j k l rest n = ground arith

-- What both answers do before they add records.
abbrev pub copied : Bytes → ℕ → Result Error Bytes
copied q n = question_end q >>= λ e. slice q 0 e >>= λ out. put_header out n

length-dotted : (ls : List Bytes) → length (dotted ls) ≡ length (wire ls)
length-dotted [] = refl
length-dotted (l ∷ ls) =
    omega (arith, length-dotted ls, length-append l (wire ls), length-append l (b'.' ∷ dotted ls))

slice-front : (front rest : Bytes) (n : ℕ) → n ≡ length front → slice (front ++ rest) 0 n ≡ ok front
unfolding slice
slice-front front rest n e =
    rw e (ground (arith, length-append front rest, take-append_self front rest))

-- A question section, which `Question` reads behind any header and before anything.
abbrev pub IsSection : Bytes → Bytes → ℕ → Type 0
IsSection section name t =
    (length section ≡ length name + 5)
    × ((head extra : Bytes)
        → length head ≡ 12
        → question (head ++ (section ++ extra)) ≡ ok (name, t))

wire-IsSection :
    (ls : List Bytes) (t c d : ℕ)
    → t < 65536
    → All IsWireLabel ls
    → IsSection (wire ls ++ (0 ∷ (u16_be t ++ (c ∷ d ∷ [])))) (dotted ls) t
wire-IsSection ls t c d q a = (
  omega (arith, length-append (wire ls) (0 ∷ (u16_be t ++ (c ∷ d ∷ []))), length-dotted ls),
  λ head extra h.
      rw (append_assoc (wire ls) (0 ∷ (u16_be t ++ (c ∷ d ∷ []))) extra)
        (question-wire head ls t c d extra h q a),
)

copied-parts :
    (q head section rest name : Bytes) (t n : ℕ)
    → q ≡ head ++ (section ++ rest)
    → length head ≡ 12
    → length section ≡ length name + 5
    → question_end q ≡ ok (length name + 17)
    → (x y : ℕ) × (copied q n ≡ ok (x ∷ y ∷ (answer_fields n ++ section)))
      × (u16_at q 0 ≡ ok (x * 256 + y))
copied-parts q (a ∷ b ∷ c ∷ d ∷ e ∷ f ∷ g ∷ h ∷ i ∷ j ∷ k ∷ l ∷ []) section rest name t n shape
      twelve size ends =
    let head = a ∷ b ∷ c ∷ d ∷ e ∷ f ∷ g ∷ h ∷ i ∷ j ∷ k ∷ l ∷ [] in
    let cut : slice q 0 (length name + 17) ≡ ok (head ++ section) =
      rw (shape, ← append_assoc head section rest)
        (slice-front (head ++ section) rest (length name + 17)
          (omega (arith, length-append head section))) in
    (
      a,
      b,
      rw (ends, cut) (put_header-eq a b c d e f g h i j k l section n),
      rw shape (unfold u16_at byte_at in refl),
    )
copied-parts q head section rest name t n shape twelve size ends = absurd (omega arith)

pub copied-shape :
    (q name : Bytes) (t n : ℕ)
    → All IsByte q
    → question q ≡ ok (name, t)
    → (x y : ℕ) × (section : Bytes) × (copied q n ≡ ok (x ∷ y ∷ (answer_fields n ++ section)))
      × (u16_at q 0 ≡ ok (x * 256 + y))
      × IsSection section name t
copied-shape q name t n b h =
    let (head, ls, c, d, rest, shape, twelve, fine, text, small) = question-parsed q name t b h in
    let section = wire ls ++ (0 ∷ (u16_be t ++ (c ∷ d ∷ []))) in
    let is_section : IsSection section name t = rw text (wire-IsSection ls t c d small fine) in
    let whole : q ≡ head ++ (section ++ rest) =
      shape
      ∙ ap (λ (s : Bytes). head ++ s)
          (sym (append_assoc (wire ls) (0 ∷ (u16_be t ++ (c ∷ d ∷ []))) rest)) in
    let (x, y, made, id) =
      copied-parts q head section rest name t n whole twelve is_section.0
        (question_end-ok q name t h) in
    (x, y, section, made, id, is_section)

-- What a client reads off such an answer.
pub parse_reply-fields :
    (x y n : ℕ) (rest : Bytes)
    → n < 65536
    → parse_reply (x ∷ y ∷ (answer_fields n ++ rest))
      ≡ ok (record { id = x * 256 + y; rcode = 0; an_count = n; truncated = false; ad = false })
unfolding parse_reply u16_at byte_at
parse_reply-fields x y n rest h = ground arith

pub answer_a-copied :
    (q ip out : Bytes) (ttl : ℕ)
    → copied q 1 ≡ ok out
    → answer_a q ip ttl ≡ ok (out ++ a_record ip ttl)
unfolding answer_a
answer_a-copied q ip out ttl h = ground (arith, h)

-- What both answers promise for a query that `Question` reads as `name` and `t`: an answer that names the
-- same question and carries the query's id, NOERROR and `n` answers, neither truncated nor authenticated.
abbrev pub Answers : Bytes → Bytes → ℕ → ℕ → ℕ → Result Error Bytes → Type 0
Answers q name t n extra made =
    (r : Bytes) × (id : ℕ) × (made ≡ ok r)
    × (u16_at q 0 ≡ ok id)
    × (question r ≡ ok (name, t))
    × (parse_reply r
        ≡ ok (record { id = id; rcode = 0; an_count = n; truncated = false; ad = false }))
    × (length r ≡ length name + 17 + extra)

-- For every query of bytes that `Question` reads, `AnswerA` returns a reply that asks the same question
-- and that `ParseReply` reads as the query's id, NOERROR, one answer, not truncated, not authenticated;
-- it is 12 bytes and the address longer than the header and the question.
pub answer_a-Answers :
    (q name ip : Bytes) (t ttl : ℕ)
    → All IsByte q
    → question q ≡ ok (name, t)
    → Answers q name t 1 (12 + length ip) (answer_a q ip ttl)
answer_a-Answers q name ip t ttl b h =
    let (x, y, section, made, id, (size, reads)) = copied-shape q name t 1 b h in
    let head = x ∷ y ∷ answer_fields 1 in
    (
      head ++ (section ++ a_record ip ttl),
      x * 256 + y,
      answer_a-copied q ip (head ++ section) ttl made
          ∙ ap ok (append_assoc head section (a_record ip ttl)),
      id,
      reads head (a_record ip ttl) refl,
      parse_reply-fields x y 1 (section ++ a_record ip ttl) (omega arith),
      omega (arith, length-append section (a_record ip ttl)),
    )

-- The same of `AnswerEmpty`, with no answer and nothing behind the question.
pub answer_empty-Answers :
    (q name : Bytes) (t : ℕ)
    → All IsByte q
    → question q ≡ ok (name, t)
    → Answers q name t 0 0 (answer_empty q)
unfolding answer_empty
answer_empty-Answers q name t b h =
    let (x, y, section, made, id, (size, reads)) = copied-shape q name t 0 b h in
    let head = x ∷ y ∷ answer_fields 0 in
    (
      head ++ section,
      x * 256 + y,
      made,
      id,
      rw append-nil at (reads head [] refl),
      parse_reply-fields x y 0 section (omega arith),
      omega arith,
    )
