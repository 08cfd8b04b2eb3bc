-- ===== src/DnsWire/Safety.antt =====
-- No message makes these functions index out of range, and the loops over labels end within their fuel.
use elodin.Common.{
  ℕ, zero, suc, ◌+◌, ◌<◌, ◌≤◌, ◌≡◌, Bool, true, false, none, some, [], ◌∷◌, ◌++◌, arith, Bytes,
  length, Result, ok, err, get_elem?-lt, Result-cases, inl, inr, take, length-take,
}
use elodin.DnsWire.{
  Error, out_of_range, out_of_fuel, byte_at, slice, read_label, read_name, question, skip_label,
  skip_name, question_end, put_header, answer_a, answer_empty, parse_reply,
}
use elodin.DnsWire.Agreement.{u16_at-total, read_label-some, question_end-inv, skip_name-inv}
use elodin.DnsWire.Answers.{answer_fields, put_header-eq, copied}

-- The result is a panic or the end of the fuel.
abbrev is_fault : Error → Bool
is_fault out_of_range = true
is_fault out_of_fuel = true
is_fault _ = false

abbrev pub faults {ℓ} : {A : Type ℓ} → Result Error A → Bool
faults (ok a) = false
faults (err e) = is_fault e

byte_at-total : (msg : Bytes) (i : ℕ) → i < length msg → (v : ℕ) × (byte_at msg i ≡ ok v)
unfolding byte_at
byte_at-total msg i h = let (v, e) = get_elem?-lt msg i h in (v, rw e)

-- A round of either loop does not fault, and goes on behind where it began.
read_label-safe : (msg : Bytes) (off : ℕ) → faults (read_label msg off) ≡ false
unfolding read_label
read_label-safe msg off = ground (arith, get_elem?-lt msg off)

skip_label-safe : (msg : Bytes) (off : ℕ) → faults (skip_label msg off) ≡ false
unfolding skip_label
skip_label-safe msg off = ground (arith, get_elem?-lt msg off)

skip_label-ahead :
    (msg : Bytes) (off j : ℕ) → skip_label msg off ≡ ok (true, j) → (off < j) × (off < length msg)
unfolding skip_label
skip_label-ahead msg off j h = ground arith

read_name-safe :
    (fuel : ℕ) (msg : Bytes) (off : ℕ) (sb : Bytes)
    → length msg < off + fuel
    → 0 < fuel
    → faults (read_name fuel msg off sb) ≡ false
unfolding read_name
read_name-safe zero msg off sb h p = absurd (omega arith)
read_name-safe (suc fuel) msg off sb h p = elim (Result-cases (read_label msg off)) [
  | inl ((none, j), s) ↦ rw s
  | inl ((some l, j), s) ↦
      let (skips, moved) = read_label-some msg l off j s in
      let (ahead, inside) = skip_label-ahead msg off j skips in
      rw s (read_name-safe fuel msg j (sb ++ (l ++ b'.' ∷ [])) (omega arith) (omega arith))
  | inr (x, s) ↦ rw s (rw s at (read_label-safe msg off))
]

skip_name-safe :
    (fuel : ℕ) (msg : Bytes) (off : ℕ)
    → length msg < off + fuel
    → 0 < fuel
    → faults (skip_name fuel msg off) ≡ false
unfolding skip_name
skip_name-safe zero msg off h p = absurd (omega arith)
skip_name-safe (suc fuel) msg off h p = elim (Result-cases (skip_label msg off)) [
  | inl ((false, j), s) ↦ rw s
  | inl ((true, j), s) ↦
      let (ahead, inside) = skip_label-ahead msg off j s in
      rw s (skip_name-safe fuel msg j (omega arith) (omega arith))
  | inr (x, s) ↦ rw s (rw s at (skip_label-safe msg off))
]

skip_name-ahead : (fuel : ℕ) (msg : Bytes) (off e : ℕ) → skip_name fuel msg off ≡ ok e → off < e
skip_name-ahead zero msg off e h = unfold skip_name in cc h
skip_name-ahead (suc fuel) msg off e h = elim (skip_name-inv fuel msg off e h) [
  | inl s ↦ unfold skip_label in ground arith
  | inr (j, s, later) ↦
      omega (arith, skip_label-ahead msg off j s, skip_name-ahead fuel msg j e later)
]

parse_reply-safe : (msg : Bytes) → faults (parse_reply msg) ≡ false
unfolding parse_reply
parse_reply-safe msg = ground (arith, u16_at-total msg 2, u16_at-total msg 0, u16_at-total msg 6)

question-safe : (msg : Bytes) → faults (question msg) ≡ false
unfolding question
question-safe msg = elim (Result-cases (read_name (suc (length msg)) msg 12 [])) [
  | inl ((name, off), s) ↦ rw s (ground (arith, u16_at-total msg off))
  | inr (x, s) ↦
      let safe =
        rw s at (read_name-safe (suc (length msg)) msg 12 [] (omega arith) (omega arith)) in
      rw s (ground (arith, safe))
]

question_end-safe : (msg : Bytes) → faults (question_end msg) ≡ false
unfolding question_end
question_end-safe msg = ground (arith, skip_name-safe (suc (length msg)) msg 12)

-- The six stores of a header fit where twelve bytes are there.
put_header-safe :
    (out : Bytes) (n : ℕ) → 12 ≤ length out → (out' : Bytes) × (put_header out n ≡ ok out')
put_header-safe (a ∷ b ∷ c ∷ d ∷ e ∷ f ∷ g ∷ h ∷ i ∷ j ∷ k ∷ l ∷ rest) n p =
    (a ∷ b ∷ (answer_fields n ++ rest), put_header-eq a b c d e f g h i j k l rest n)
put_header-safe out n p = absurd (omega arith)

copied-safe : (q : Bytes) (n : ℕ) → faults (copied q n) ≡ false
copied-safe q n = elim (Result-cases (question_end q)) [
  | inl (e, s) ↦
      let (off, l, skips, is_end, room) = question_end-inv q e s in
      let fits : slice q 0 e ≡ ok (take e q) = unfold slice in ground arith in
      let room_left : 12 ≤ length (take e q) =
        omega (arith, length-take e q, skip_name-ahead (suc (length q)) q 12 off skips) in
      let (out, made) = put_header-safe (take e q) n room_left in
      let all : copied q n ≡ ok out = rw (s, fits) made in rw all
  | inr (x, s) ↦ rw s (rw s at (question_end-safe q))
]

-- For every message, `ParseReply`, `Question`, `questionEnd` and both answers return a value or one of
-- the errors that the code makes: no index or slice is out of range, and no loop outlives its fuel,
-- which is one more than the length of the message.
pub dnswire-safe :
    (msg ip : Bytes) (ttl : ℕ)
    → (faults (parse_reply msg) ≡ false)
      × (faults (question msg) ≡ false)
      × (faults (question_end msg) ≡ false)
      × (faults (answer_a msg ip ttl) ≡ false)
      × (faults (answer_empty msg) ≡ false)
dnswire-safe msg ip ttl = (
  parse_reply-safe msg,
  question-safe msg,
  question_end-safe msg,
  unfold answer_a in ground (arith, copied-safe msg 1),
  unfold answer_empty in copied-safe msg 0,
)
