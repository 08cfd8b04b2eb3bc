-- ===== src/DnsWire/Agreement.antt =====
-- `Question` and `questionEnd` walk the same labels.
use mathlib.Core.Option
use elodin.Common.{
  ℕ, zero, suc, ◌+◌, ◌<◌, ◌≤◌, ◌≡◌, ap, ◌∙◌, Bool, true, false, none, some, [], ◌∷◌, ◌++◌, arith,
  Bytes, length, length-append, length-take, length-drop, take, drop, ok, ◌⊎◌, inl, inr, value,
  Result-cases, Option-cases, get_elem?, get_elem?-lt, ◌*◌,
}
use elodin.DnsWire.Labels.{read_name-label, read_name-end}
use elodin.DnsWire.RoundTrip.{question_of}
use elodin.DnsWire.{u16_at, read_label, read_name, question, skip_label, skip_name, question_end}

-- One round each: the end of the name is seen by both.
pub read_label-none :
    (msg : Bytes) (off j : ℕ)
    → read_label msg off ≡ ok (none, j)
    → (skip_label msg off ≡ ok (false, j)) × (j ≡ off + 1)
unfolding read_label skip_label
read_label-none msg off j h = ground arith

skip_label-end :
    (msg : Bytes) (off j : ℕ)
    → skip_label msg off ≡ ok (false, j)
    → read_label msg off ≡ ok (none, j)
unfolding read_label skip_label
skip_label-end msg off j h = ground arith

pub read_label-some :
    (msg l : Bytes) (off j : ℕ)
    → read_label msg off ≡ ok (some l, j)
    → (skip_label msg off ≡ ok (true, j)) × (j ≡ off + 1 + length l)
unfolding read_label skip_label
read_label-some msg l off j h = elim (Option-cases (get_elem? msg off)) [
  | inl e ↦ ground arith
  | inr (n, e) ↦ ground (arith, length-take n (drop (off + 1) msg), length-drop (off + 1) msg)
]

skip_label-more :
    (msg : Bytes) (off j : ℕ)
    → skip_label msg off ≡ ok (true, j)
    → j ≤ length msg
    → (l : Bytes) × (read_label msg off ≡ ok (some l, j))
unfolding read_label skip_label
skip_label-more msg off j h b = elim (Option-cases (get_elem? msg off)) [
  | inl e ↦ ([], ground arith)
  | inr (n, e) ↦ (take n (drop (off + 1) msg), ground arith)
]

skip_label-lt :
    (msg : Bytes) (off : ℕ) (r : Bool × ℕ) → skip_label msg off ≡ ok r → off < length msg
unfolding skip_label
skip_label-lt msg off r h = ground arith

skip_name-lt :
    (fuel : ℕ) (msg : Bytes) (off e : ℕ) → skip_name fuel msg off ≡ ok e → off < length msg
unfolding skip_name
skip_name-lt zero msg off e h = cc
skip_name-lt (suc fuel) msg off e h = elim (Result-cases (skip_label msg off)) [
  | inl (r, s) ↦ skip_label-lt msg off r s
  | inr (x, s) ↦ cc (rw s at h)
]

skip_name-step :
    (fuel : ℕ) (msg : Bytes) (off j : ℕ)
    → skip_label msg off ≡ ok (true, j)
    → skip_name (suc fuel) msg off ≡ skip_name fuel msg j
unfolding skip_name
skip_name-step fuel msg off j h = rw h

skip_name-end :
    (fuel : ℕ) (msg : Bytes) (off j : ℕ)
    → skip_label msg off ≡ ok (false, j)
    → skip_name (suc fuel) msg off ≡ ok j
unfolding skip_name
skip_name-end fuel msg off j h = rw h

-- The two ways in which a round that starts a successful walk can go.
pub read_name-inv :
    (fuel : ℕ) (msg : Bytes) (off : ℕ) (sb : Bytes) (r : Bytes × ℕ)
    → read_name (suc fuel) msg off sb ≡ ok r
    → (read_label msg off ≡ ok (none, r.1)) × (r.0 ≡ sb)
      ⊎ ((l : Bytes) × (j : ℕ) × (read_label msg off ≡ ok (some l, j))
          × (read_name fuel msg j (sb ++ (l ++ b'.' ∷ [])) ≡ ok r))
unfolding read_name
read_name-inv fuel msg off sb r h = elim (Result-cases (read_label msg off)) [
  | inl ((none, j), s) ↦ inl (ground arith)
  | inl ((some l, j), s) ↦ inr (l, j, s, rw s at h)
  | inr (x, s) ↦ cc (rw s at h)
]

pub skip_name-inv :
    (fuel : ℕ) (msg : Bytes) (off e : ℕ)
    → skip_name (suc fuel) msg off ≡ ok e
    → (skip_label msg off ≡ ok (false, e))
      ⊎ ((j : ℕ) × (skip_label msg off ≡ ok (true, j)) × (skip_name fuel msg j ≡ ok e))
unfolding skip_name
skip_name-inv fuel msg off e h = elim (Result-cases (skip_label msg off)) [
  | inl ((false, j), s) ↦ inl (ground arith)
  | inl ((true, j), s) ↦ inr (j, s, rw s at h)
  | inr (x, s) ↦ cc (rw s at h)
]

-- Where the name is read its end is found, and the text read is as long as what was passed over.
skip_name-read_name :
    (fuel : ℕ) (msg : Bytes) (off : ℕ) (sb name : Bytes) (e : ℕ)
    → read_name fuel msg off sb ≡ ok (name, e)
    → (skip_name fuel msg off ≡ ok e) × (e + length sb ≡ off + length name + 1)
skip_name-read_name zero msg off sb name e h = unfold read_name in cc h
skip_name-read_name (suc fuel) msg off sb name e h =
    elim (read_name-inv fuel msg off sb (name, e) h) [
      | inl (s, same) ↦
          let (ends, moved) = read_label-none msg off e s in
          (skip_name-end fuel msg off e ends, omega (arith, ap length same))
      | inr (l, j, s, later) ↦
          let (skips, moved) = read_label-some msg l off j s in
          let (ends, count) =
            skip_name-read_name fuel msg j (sb ++ (l ++ b'.' ∷ [])) name e later in
          (
            skip_name-step fuel msg off j skips ∙ ends,
            omega (arith, length-append sb (l ++ b'.' ∷ []), length-append l (b'.' ∷ [])),
          )
    ]

read_name-skip_name :
    (fuel : ℕ) (msg : Bytes) (off : ℕ) (sb : Bytes) (e : ℕ)
    → skip_name fuel msg off ≡ ok e
    → (name : Bytes) × (read_name fuel msg off sb ≡ ok (name, e))
read_name-skip_name zero msg off sb e h = unfold skip_name in cc h
read_name-skip_name (suc fuel) msg off sb e h = elim (skip_name-inv fuel msg off e h) [
  | inl s ↦ (sb, read_name-end fuel msg off sb e (skip_label-end msg off e s))
  | inr (j, s, later) ↦
      let b : j ≤ length msg = omega (arith, skip_name-lt fuel msg j e later) in
      let (l, r) = skip_label-more msg off j s b in
      let (name, reads) = read_name-skip_name fuel msg j (sb ++ (l ++ b'.' ∷ [])) e later in
      (name, read_name-label fuel msg off sb l j r ∙ reads)
]

pub question-inv :
    (msg name : Bytes) (t : ℕ)
    → question msg ≡ ok (name, t)
    → (off : ℕ) × (12 ≤ length msg)
      × (read_name (suc (length msg)) msg 12 [] ≡ ok (name, off))
      × (off + 4 ≤ length msg)
      × (u16_at msg off ≡ ok t)
unfolding question
question-inv msg name t h = elim (Result-cases (read_name (suc (length msg)) msg 12 [])) [
  | inl ((n, off), s) ↦
      let same : n ≡ name = ground arith in
      (off, ground arith, rw same at s, ground arith, ground arith)
  | inr (x, s) ↦ ground arith
]

pub question_end-inv :
    (msg : Bytes) (e : ℕ)
    → question_end msg ≡ ok e
    → (off : ℕ) × (12 ≤ length msg)
      × (skip_name (suc (length msg)) msg 12 ≡ ok off)
      × (e ≡ off + 4)
      × (off + 4 ≤ length msg)
unfolding question_end
question_end-inv msg e h = elim (Result-cases (skip_name (suc (length msg)) msg 12)) [
  | inl (off, s) ↦ (off, ground arith, s, ground arith, ground arith)
  | inr (x, s) ↦ ground arith
]

pub question_end_of :
    (msg : Bytes) (off : ℕ)
    → 12 ≤ length msg
    → skip_name (suc (length msg)) msg 12 ≡ ok off
    → off + 4 ≤ length msg
    → question_end msg ≡ ok (off + 4)
unfolding question_end
question_end_of msg off l s b = ground arith

pub u16_at-total : (msg : Bytes) (i : ℕ) → i + 2 ≤ length msg → (v : ℕ) × (u16_at msg i ≡ ok v)
unfolding u16_at
u16_at-total msg i h =
    let (hi, p) = get_elem?-lt msg i (omega arith) in
    let (lo, q) = get_elem?-lt msg (i + 1) (omega arith) in (hi * 256 + lo, rw (p, q))

-- Where `Question` reads a name, `questionEnd` finds its end.
pub question_end-ok :
    (msg name : Bytes) (t : ℕ)
    → question msg ≡ ok (name, t)
    → question_end msg ≡ ok (length name + 17)
question_end-ok msg name t h =
    let (off, l, r, b, _) = question-inv msg name t h in
    let (s, moved) = skip_name-read_name (suc (length msg)) msg 12 [] name off r in
    question_end_of msg off l s b ∙ ap ok (omega arith)

pub question-ok :
    (msg : Bytes) (e : ℕ)
    → question_end msg ≡ ok e
    → (name : Bytes) × (t : ℕ) × (question msg ≡ ok (name, t))
question-ok msg e h =
    let (off, l, s, _, b) = question_end-inv msg e h in
    let (name, r) = read_name-skip_name (suc (length msg)) msg 12 [] off s in
    let (t, u) = u16_at-total msg off (omega arith) in (name, t, question_of msg name off t l r b u)

-- On every message, `questionEnd` finds an end exactly when `Question` reads a name, and the end is 17
-- bytes past as many bytes as the name is read as: 12 of the header, one for the zero byte, and 4 for
-- the type and the class.
pub question_end-question :
    (msg : Bytes)
    → value (question_end msg) ≡ Option.map (λ r. length r.0 + 17) (value (question msg))
question_end-question msg = elim (Result-cases (question msg)) [
  | inl ((name, t), h) ↦ rw (h, question_end-ok msg name t h)
  | inr (x, h) ↦ rw h (elim (Result-cases (question_end msg)) [
    | inl (e, k) ↦ cc (h, (question-ok msg e k).2)
    | inr (y, k) ↦ rw k
  ])
]
