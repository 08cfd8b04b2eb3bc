-- ===== src/DnsWire/Labels.antt =====
-- Labels on the wire: how the loops over a message read a label that stands behind a prefix.
use elodin.Common.{
  ℕ, zero, suc, ◌+◌, ◌/◌, ◌%◌, ◌<◌, ◌≡◌, ap, ◌∙◌, none, some, List, [], ◌∷◌, ◌++◌, append_assoc,
  append-nil, arith, Bytes, length, get_elem?-append, length-append, take-append_self,
  drop-append_self, ok, All,
}
use elodin.Text.Names.{Lacks}
use elodin.DnsWire.{byte_at, u16_at, u16_be, slice, read_label, read_name}

-- A label that a query can carry: not empty, below 64 bytes, with no dot.
abbrev pub IsLabel : Bytes → Type 0
IsLabel l = (0 < length l) × (length l < 64) × Lacks b'.' l

-- What the wire can carry: a length from 1 to 63 and that many bytes.
abbrev pub IsWireLabel : Bytes → Type 0
IsWireLabel l = (0 < length l) × (length l < 64)

abbrev pub IsByte : ℕ → Type 0
IsByte c = c < 256

-- What labels look like on the wire, and as the text that `Question` builds.
abbrev pub wire : List Bytes → Bytes
wire [] = []
wire (l ∷ ls) = (length l % 256) ∷ (l ++ wire ls)

abbrev pub dotted : List Bytes → Bytes
dotted [] = []
dotted (l ∷ ls) = l ++ (b'.' ∷ dotted ls)

pub byte_at-append :
    (pre rest : Bytes) (x i : ℕ) → i ≡ length pre → byte_at (pre ++ (x ∷ rest)) i ≡ ok x
unfolding byte_at
byte_at-append pre rest x i e =
    let h : i ≡ length pre + 0 = omega arith in rw h (rw get_elem?-append)

pub slice-append :
    (pre mid post : Bytes) (i : ℕ)
    → i ≡ length pre
    → slice (pre ++ (mid ++ post)) i (length mid) ≡ ok mid
unfolding slice
slice-append pre mid post i e = rw e (
    ground (
      arith,
      length-append pre (mid ++ post),
      length-append mid post,
      drop-append_self pre (mid ++ post),
      take-append_self mid post,
    ))

pub u16_at-append :
    (pre post : Bytes) (v i : ℕ)
    → i ≡ length pre
    → v < 65536
    → u16_at (pre ++ (u16_be v ++ post)) i ≡ ok v
unfolding u16_at
u16_at-append pre post v i e h =
    rw (byte_at-append pre ((v % 256) ∷ post) (v / 256 % 256) i e)
      (rw (second) (ap ok (omega arith)))
  where
    second : byte_at (pre ++ ((v / 256 % 256) ∷ (v % 256) ∷ post)) (i + 1) ≡ ok (v % 256)
    second = rw (← append_assoc pre ((v / 256 % 256) ∷ []) ((v % 256) ∷ post)) (
        byte_at-append (pre ++ ((v / 256 % 256) ∷ [])) post (v % 256) (i + 1)
          (omega (arith, length-append pre ((v / 256 % 256) ∷ []))))

slice-after :
    (pre mid post : Bytes) (x i : ℕ)
    → i ≡ length pre
    → slice (pre ++ (x ∷ (mid ++ post))) (i + 1) (length mid) ≡ ok mid
slice-after pre mid post x i e =
    rw (← append_assoc pre (x ∷ []) (mid ++ post))
      (slice-append (pre ++ (x ∷ [])) mid post (i + 1) (omega (arith, length-append pre (x ∷ []))))

pub read_label-label :
    (pre l post : Bytes) (i : ℕ)
    → i ≡ length pre
    → 0 < length l
    → length l < 64
    → read_label (pre ++ ((length l % 256) ∷ (l ++ post))) i ≡ ok (some l, i + 1 + length l)
unfolding read_label
read_label-label pre l post i e pos small =
    let whole : length l % 256 ≡ length l = omega arith in
    rw whole (
      ground (
        arith,
        byte_at-append pre (l ++ post) (length l) i e,
        slice-after pre l post (length l) i e,
        length-append pre (length l ∷ (l ++ post)),
        length-append l post,
      ))

pub read_label-end :
    (pre post : Bytes) (i : ℕ)
    → i ≡ length pre
    → read_label (pre ++ (0 ∷ post)) i ≡ ok (none, i + 1)
unfolding read_label
read_label-end pre post i e =
    ground (arith, byte_at-append pre post 0 i e, length-append pre (0 ∷ post))

-- One round of the loop of `Question`, by what the label reader returns.
pub read_name-label :
    (fuel : ℕ) (msg : Bytes) (i : ℕ) (sb l : Bytes) (j : ℕ)
    → read_label msg i ≡ ok (some l, j)
    → read_name (suc fuel) msg i sb ≡ read_name fuel msg j (sb ++ (l ++ b'.' ∷ []))
unfolding read_name
read_name-label fuel msg i sb l j h = rw h

pub read_name-end :
    (fuel : ℕ) (msg : Bytes) (i : ℕ) (sb : Bytes) (j : ℕ)
    → read_label msg i ≡ ok (none, j)
    → read_name (suc fuel) msg i sb ≡ ok (sb, j)
unfolding read_name
read_name-end fuel msg i sb j h = rw h

-- The loop of `Question` reads the labels up to the end of the name.
pub read_name-wire :
    (fuel : ℕ) (ls : List Bytes) (pre post sb : Bytes) (i : ℕ)
    → i ≡ length pre
    → length ls < fuel
    → All IsWireLabel ls
    → read_name fuel (pre ++ (wire ls ++ (0 ∷ post))) i sb
      ≡ ok (sb ++ dotted ls, i + length (wire ls) + 1)
read_name-wire zero ls pre post sb i e f a = absurd (omega arith)
read_name-wire (suc fuel) [] pre post sb i e f a =
    rw (read_name-end fuel (pre ++ (0 ∷ post)) i sb (i + 1) (read_label-end pre post i e))
      (ground (arith, append-nil sb))
read_name-wire (suc fuel) (l ∷ ls) pre post sb i e f a =
    let rest = wire ls ++ (0 ∷ post) in
    let front = (length l % 256) ∷ l in
    let later =
      read_name-wire fuel ls (pre ++ front) post (sb ++ (l ++ (b'.' ∷ []))) (i + 1 + length l)
        (omega (arith, length-append pre front)) (omega arith) a.1 in
    rw
      (
        append_assoc l (wire ls) (0 ∷ post),
        read_name-label fuel (pre ++ (front ++ rest)) i sb l (i + 1 + length l)
            (read_label-label pre l rest i e a.0.0 a.0.1),
      )
      (rw
          (
            append_assoc pre front rest,
            append_assoc sb (l ++ b'.' ∷ []) (dotted ls),
            append_assoc l (b'.' ∷ []) (dotted ls),
          )
          at later
        ∙ ground (arith, length-append l (wire ls)))
