-- ===== src/DnsWire/Parsed.antt =====
-- What a message looks like that `Question` reads.
use elodin.Common.{
  ℕ, zero, suc, ◌+◌, ◌*◌, ◌%◌, ◌/◌, ◌<◌, ◌≤◌, ◌≡◌, refl, sym, ap, ◌∙◌, Option, none, some, List, [],
  ◌∷◌, ◌++◌, append_assoc, append-nil, arith, Bytes, length, length-append, length-take, take, drop,
  ok, inl, inr, get_elem?, get_elem?-append, All, take-append-drop,
}
use elodin.DnsWire.{u16_be, u16_at, byte_at, read_label, read_name, question}
use elodin.DnsWire.Labels.{IsWireLabel, IsByte, wire, dotted}
use elodin.DnsWire.Agreement.{read_name-inv, question-inv}

get_elem?-here : (pre body : Bytes) (n : ℕ) → get_elem? (pre ++ (n ∷ body)) (length pre) ≡ some n
get_elem?-here [] body n = refl
get_elem?-here (x ∷ pre) body n = get_elem?-here pre body n

drop-here : (pre body : Bytes) (n : ℕ) → drop (length pre + 1) (pre ++ (n ∷ body)) ≡ body
drop-here [] body n = refl
drop-here (x ∷ pre) body n =
    let e : suc (length pre) + 1 ≡ suc (length pre + 1) = omega arith in rw e (drop-here pre body n)

no_label_at_end : (pre : Bytes) (r : Option Bytes × ℕ) → ¬ (read_label pre (length pre) ≡ ok r)
unfolding read_label
no_label_at_end pre r h = ground arith

read_label-facts :
    (pre body l : Bytes) (n j : ℕ)
    → n < 256
    → read_label (pre ++ (n ∷ body)) (length pre) ≡ ok (some l, j)
    → (l ≡ take n body) × (0 < n) × (n < 64) × (n ≤ length body) × (j ≡ length pre + 1 + n)
unfolding read_label
read_label-facts pre body l n j b h =
    ground (arith, get_elem?-here pre body n, drop-here pre body n, length-append pre (n ∷ body))

-- A label that is read stands behind its length.
read_label-here :
    (pre body l : Bytes) (j : ℕ)
    → All IsByte body
    → read_label (pre ++ body) (length pre) ≡ ok (some l, j)
    → (post : Bytes) × (body ≡ (length l % 256) ∷ (l ++ post))
      × IsWireLabel l
      × (j ≡ length (pre ++ ((length l % 256) ∷ l)))
read_label-here pre [] l j b h = absurd (no_label_at_end pre (some l, j) (rw append-nil at h))
read_label-here pre (n ∷ body) l j b h =
    let (is_take, pos, small, room, moved) = read_label-facts pre body l n j b.0 h in
    let size : length l ≡ n = omega (arith, ap length is_take, length-take n body) in
    let short : length l % 256 ≡ n = omega arith in
    (
      drop n body,
      rw (short, is_take, take-append-drop n body),
      (omega arith, omega arith),
      omega (arith, length-append pre ((length l % 256) ∷ l)),
    )

read_label-zero :
    (pre body : Bytes) (j : ℕ)
    → read_label (pre ++ body) (length pre) ≡ ok (none, j)
    → (post : Bytes) × (body ≡ 0 ∷ post) × (j ≡ length pre + 1)
read_label-zero pre [] j h = absurd (no_label_at_end pre (none, j) (rw append-nil at h))
read_label-zero pre (n ∷ body) j h = (
  body,
  unfold read_label in ground (arith, get_elem?-here pre body n, length-append pre (n ∷ body)),
  unfold read_label in ground (arith, get_elem?-here pre body n, length-append pre (n ∷ body)),
)

All-drop_head : (ns rest : Bytes) → All IsByte (ns ++ rest) → All IsByte rest
All-drop_head [] rest h = h
All-drop_head (n ∷ ns) rest h = All-drop_head ns rest h.1

-- What the loop of `Question` reads is a row of labels and a zero byte.
read_name-parsed :
    (fuel : ℕ) (pre body sb name : Bytes) (e : ℕ)
    → All IsByte body
    → read_name fuel (pre ++ body) (length pre) sb ≡ ok (name, e)
    → (ls : List Bytes) × (post : Bytes) × (body ≡ wire ls ++ (0 ∷ post))
      × (name ≡ sb ++ dotted ls)
      × All IsWireLabel ls
      × (e ≡ length pre + length (wire ls) + 1)
read_name-parsed zero pre body sb name e b h = unfold read_name in cc h
read_name-parsed (suc fuel) pre body sb name e b h =
    elim (read_name-inv fuel (pre ++ body) (length pre) sb (name, e) h) [
      | inl (s, same) ↦
          let (post, is_zero, moved) = read_label-zero pre body e s in
          ([], post, is_zero, same ∙ sym (append-nil sb), tt, omega arith)
      | inr (l, j, s, later) ↦
          let (rest, shape, fine, moved) = read_label-here pre body l j b s in
          let front = (length l % 256) ∷ l in
          let (ls, post, shape', text, all_fine, end) =
            read_name-parsed fuel (pre ++ front) rest (sb ++ (l ++ b'.' ∷ [])) name e
              (All-drop_head front rest (rw shape at b))
              (rw (shape, moved, ← append_assoc pre front rest) at later) in
          (
            l ∷ ls,
            post,
            shape ∙ rw (shape', append_assoc l (wire ls) (0 ∷ post)),
            text
                ∙ rw (
                  append_assoc sb (l ++ b'.' ∷ []) (dotted ls),
                  append_assoc l (b'.' ∷ []) (dotted ls),
                ),
            (fine, all_fine),
            omega (arith, length-append pre front, length-append l (wire ls)),
          )
    ]

split_head :
    (msg : Bytes) (n : ℕ)
    → n ≤ length msg
    → (head : Bytes) × (body : Bytes) × (msg ≡ head ++ body) × (length head ≡ n)
split_head msg n h =
    (take n msg, drop n msg, sym (take-append-drop n msg), omega (arith, length-take n msg))

bytes-at :
    (pre rest : Bytes) (x y i t : ℕ)
    → i ≡ length pre
    → u16_at (pre ++ (x ∷ y ∷ rest)) i ≡ ok t
    → t ≡ x * 256 + y
unfolding u16_at byte_at
bytes-at pre rest x y i t e h =
    let next : get_elem? (pre ++ (x ∷ y ∷ rest)) (length pre + 1) ≡ some y =
      get_elem?-append pre (x ∷ y ∷ rest) 1 in
    ground (arith, get_elem?-here pre (y ∷ rest) x, next)

-- The type behind a name, where four bytes are left.
type_behind :
    (msg head : Bytes) (ls : List Bytes) (off t : ℕ) (post : Bytes)
    → All IsByte msg
    → msg ≡ head ++ (wire ls ++ (0 ∷ post))
    → off ≡ length head + length (wire ls) + 1
    → off + 4 ≤ length msg
    → u16_at msg off ≡ ok t
    → (c d : ℕ) × (rest : Bytes) × (post ≡ u16_be t ++ (c ∷ d ∷ rest)) × (t < 65536)
type_behind msg head ls off t (x ∷ y ∷ c ∷ d ∷ rest) b shape end room typed =
    let before = head ++ (wire ls ++ 0 ∷ []) in
    let regroup : msg ≡ before ++ (x ∷ y ∷ c ∷ d ∷ rest) = shape ∙ simp append_assoc in
    let spelled : t ≡ x * 256 + y =
      bytes-at before (c ∷ d ∷ rest) x y off t
        (omega (arith, length-append head (wire ls ++ 0 ∷ []), length-append (wire ls) (0 ∷ [])))
        (rw regroup at typed) in
    let (bx, (by, _)) = All-drop_head before (x ∷ y ∷ c ∷ d ∷ rest) (rw regroup at b) in
    let hi : t / 256 % 256 ≡ x = omega arith in
    let lo : t % 256 ≡ y = omega arith in (c, d, rest, rw (hi, lo), omega arith)
type_behind msg head ls off t post b shape end room typed = absurd (
    omega (
      arith,
      ap length shape,
      length-append head (wire ls ++ (0 ∷ post)),
      length-append (wire ls) (0 ∷ post),
    ))

-- Every message of bytes that `Question` reads is twelve bytes of header, labels of 1 to 63 bytes, a
-- zero byte, the type and the class, and anything behind them; the name read is the labels, a dot
-- after each, and the type is the one that stands there.
pub question-parsed :
    (msg name : Bytes) (t : ℕ)
    → All IsByte msg
    → question msg ≡ ok (name, t)
    → (head : Bytes) × (ls : List Bytes) × (c d : ℕ) × (rest : Bytes) × (msg
        ≡ head ++ (wire ls ++ (0 ∷ (u16_be t ++ (c ∷ d ∷ rest)))))
      × (length head ≡ 12)
      × All IsWireLabel ls
      × (name ≡ dotted ls)
      × (t < 65536)
question-parsed msg name t b h =
    let (off, l, r, room, typed) = question-inv msg name t h in
    let (head, body, parts, twelve) = split_head msg 12 l in
    let r' : read_name (suc (length msg)) (head ++ body) (length head) [] ≡ ok (name, off) =
      rw (twelve, ← parts) r in
    let (ls, post, shape, text, fine, end) =
      read_name-parsed (suc (length msg)) head body [] name off
        (All-drop_head head body (rw parts at b)) r' in
    let whole : msg ≡ head ++ (wire ls ++ (0 ∷ post)) =
      parts ∙ ap (λ (s : Bytes). head ++ s) shape in
    let (c, d, rest, typed_post, small) =
      type_behind msg head ls off t post b whole end room typed in
    (
      head,
      ls,
      c,
      d,
      rest,
      whole ∙ ap (λ (s : Bytes). head ++ (wire ls ++ (0 ∷ s))) typed_post,
      twelve,
      fine,
      text,
      small,
    )
