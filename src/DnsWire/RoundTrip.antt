-- ===== src/DnsWire/RoundTrip.antt =====
-- A query that the tools build is read back by the mock upstream.
use elodin.Common.{
  ℕ, suc, ◌+◌, ◌<◌, ◌≤◌, ◌≡◌, ◌≢◌, refl, sym, ap, ◌∙◌, Bool, true, false, List, [], ◌∷◌, ◌++◌,
  append_assoc, append-nil, arith, Bytes, length, length-append, ok, Bool-cases, inl, inr, All, ltb,
  if◌then◌else◌,
}
use elodin.Text.{split, join, trim_suffix}
use elodin.Text.Names.{Lacks, split-join, trim_suffix-NoTrail, trim_suffix-append, join-NoTrail}
use elodin.DnsWire.{
  u16_be, u16_at, append_labels, append_labels_of, append_name, header, opt_record, query_with,
  class_in, question, read_name,
}
use elodin.DnsWire.Labels.{IsLabel, IsWireLabel, wire, dotted, u16_at-append, read_name-wire}

-- The presentation form of a name: its labels with dots between them, with or without a last dot.
abbrev pub name_text : Bool → List Bytes → Bytes
name_text true ls = join ls (b'.' ∷ []) ++ b'.' ∷ []
name_text false ls = join ls (b'.' ∷ [])

append_labels-wire : (ls : List Bytes) (buf : Bytes) → append_labels buf ls ≡ buf ++ wire ls
unfolding append_labels
append_labels-wire [] buf = sym (append-nil buf)
append_labels-wire (l ∷ ls) buf = simp (append_labels-wire ls, append_assoc)

labels-IsPart : (ls : List Bytes) → All IsLabel ls → All (λ p. (0 < length p) × Lacks b'.' p) ls
labels-IsPart [] h = tt
labels-IsPart (l ∷ ls) h = ((h.0.0, h.0.2), labels-IsPart ls h.1)

labels-IsWireLabel : (ls : List Bytes) → All IsLabel ls → All IsWireLabel ls
labels-IsWireLabel [] h = tt
labels-IsWireLabel (l ∷ ls) h = ((h.0.0, h.0.1), labels-IsWireLabel ls h.1)

labels-Lacks : (ls : List Bytes) → All IsLabel ls → All (Lacks b'.') ls
labels-Lacks [] h = tt
labels-Lacks (l ∷ ls) h = (h.0.2, labels-Lacks ls h.1)

trim-name_text :
    (dot : Bool) (ls : List Bytes)
    → All IsLabel ls
    → trim_suffix (name_text dot ls) b'.' ≡ join ls (b'.' ∷ [])
trim-name_text true ls h = trim_suffix-append b'.' (join ls (b'.' ∷ []))
trim-name_text false [] h = unfold join trim_suffix in refl
trim-name_text false (l ∷ ls) h =
    trim_suffix-NoTrail b'.' (join (l ∷ ls) (b'.' ∷ []))
      (join-NoTrail l ls b'.' (labels-IsPart (l ∷ ls) h))

append_labels_of-split :
    (buf name : Bytes) → name ≢ [] → append_labels_of buf name ≡ append_labels buf (split name b'.')
append_labels_of-split buf [] h = absurd (h refl)
append_labels_of-split buf (c ∷ name) h = unfold append_labels_of in refl

join-ne-nil : (l : Bytes) (ls : List Bytes) → 0 < length l → join (l ∷ ls) (b'.' ∷ []) ≢ []
unfolding join
join-ne-nil [] ls h = absurd (omega arith)
join-ne-nil (c ∷ l) [] h = λ e. cc
join-ne-nil (c ∷ l) (m ∷ ls) h = λ e. cc

append_labels_of-join :
    (buf : Bytes) (ls : List Bytes)
    → All IsLabel ls
    → append_labels_of buf (join ls (b'.' ∷ [])) ≡ buf ++ wire ls
append_labels_of-join buf [] h = unfold append_labels_of join in sym (append-nil buf)
append_labels_of-join buf (l ∷ ls) h =
    append_labels_of-split buf (join (l ∷ ls) (b'.' ∷ [])) (join-ne-nil l ls h.0.0)
    ∙ (ap (append_labels buf) (split-join l ls b'.' (labels-Lacks (l ∷ ls) h))
        ∙ append_labels-wire (l ∷ ls) buf)

-- A name of labels is written as its labels on the wire and a zero byte.
pub append_name-wire :
    (dot : Bool) (buf : Bytes) (ls : List Bytes)
    → All IsLabel ls
    → append_name buf (name_text dot ls) ≡ buf ++ (wire ls ++ 0 ∷ [])
unfolding append_name
append_name-wire dot buf ls h = rw (trim-name_text dot ls h) (
    ap (λ (t : Bytes). t ++ (0 ∷ [])) (append_labels_of-join buf ls h)
    ∙ append_assoc buf (wire ls) (0 ∷ []))

-- What follows the name in a query.
abbrev tail : ℕ → ℕ → Bool → Bytes
tail qtype udp_size d =
    u16_be qtype ++ (u16_be class_in ++ (if ltb 0 udp_size then opt_record udp_size d else []))

pub query_with-wire :
    (id qtype udp_size : ℕ) (d dot : Bool) (ls : List Bytes)
    → All IsLabel ls
    → query_with id (name_text dot ls) qtype udp_size d
      ≡ header id (if ltb 0 udp_size then 1 else 0) ++ (wire ls ++ (0 ∷ tail qtype udp_size d))
unfolding query_with
query_with-wire id qtype udp_size d dot ls h = elim (Bool-cases (ltb 0 udp_size)) [
  | inl e ↦ rw (e, append_name-wire dot _ ls h) (simp append_assoc)
  | inr e ↦ rw (e, append_name-wire dot _ ls h) (simp append_assoc)
]

-- `Question` succeeds where its parts do.
pub question_of :
    (msg name : Bytes) (off t : ℕ)
    → 12 ≤ length msg
    → read_name (suc (length msg)) msg 12 [] ≡ ok (name, off)
    → off + 4 ≤ length msg
    → u16_at msg off ≡ ok t
    → question msg ≡ ok (name, t)
unfolding question
question_of msg name off t l r b u = ground arith

pub length-le-wire : (ls : List Bytes) → length ls ≤ length (wire ls)
length-le-wire [] = omega arith
length-le-wire (l ∷ ls) = omega (arith, length-le-wire ls, length-append l (wire ls))

-- `Question` of a message with a name and a type behind any header of twelve bytes.
pub question-wire :
    (head : Bytes) (ls : List Bytes) (qtype c d : ℕ) (rest : Bytes)
    → length head ≡ 12
    → qtype < 65536
    → All IsWireLabel ls
    → question (head ++ (wire ls ++ (0 ∷ (u16_be qtype ++ (c ∷ d ∷ rest))))) ≡ ok (dotted ls, qtype)
question-wire head ls qtype c d rest h q a =
    let post = u16_be qtype ++ (c ∷ d ∷ rest) in
    let msg = head ++ (wire ls ++ (0 ∷ post)) in
    let size : length msg ≡ 12 + length (wire ls) + 5 + length rest =
      omega
        (arith, length-append head (wire ls ++ (0 ∷ post)), length-append (wire ls) (0 ∷ post)) in
    let before = head ++ (wire ls ++ 0 ∷ []) in
    let regroup : before ++ post ≡ msg = simp append_assoc in
    let typed : u16_at msg (12 + length (wire ls) + 1) ≡ ok qtype = rw (← regroup) (
      u16_at-append before (c ∷ d ∷ rest) qtype (12 + length (wire ls) + 1)
        (omega (arith, length-append head (wire ls ++ 0 ∷ []), length-append (wire ls) (0 ∷ [])))
        q) in
    question_of msg (dotted ls) (12 + length (wire ls) + 1) qtype (omega arith)
      (read_name-wire (suc (length msg)) ls head post [] 12 (omega arith)
        (omega (arith, length-le-wire ls)) a)
      (omega arith) typed

-- A query for a name of labels, each of 1 to 63 bytes without a dot, with or without a last dot,
-- is read by `Question` as that name, every label followed by a dot, and the type asked for.
-- This holds for every id, EDNS size and DO bit.
pub question-query :
    (id qtype udp_size : ℕ) (d dot : Bool) (ls : List Bytes)
    → qtype < 65536
    → All IsLabel ls
    → question (query_with id (name_text dot ls) qtype udp_size d) ≡ ok (dotted ls, qtype)
question-query id qtype udp_size d dot ls q a = rw (query_with-wire id qtype udp_size d dot ls a) (
    question-wire (header id (if ltb 0 udp_size then 1 else 0)) ls qtype 0 1
      (if ltb 0 udp_size then opt_record udp_size d else []) refl q (labels-IsWireLabel ls a))
