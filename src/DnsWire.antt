-- ===== src/DnsWire.antt =====
-- bench/internal/dnswire/dnswire.go: the DNS messages that the tools build and read.
--
-- A message is a list of bytes. A slice or an index out of range is a run-time panic in Go; here it is
-- the error `out_of_range`, and `out_of_fuel` is the end of the fuel that bounds the loops over labels
-- (a message of n bytes has at most n labels). The children prove that neither is ever returned.
pub mod Labels
pub mod RoundTrip
pub mod Agreement
pub mod Parsed
pub mod Answers
pub mod Safety
use elodin.Common.{
  ℕ, zero, suc, ◌+◌, ◌*◌, ◌/◌, ◌%◌, ◌^◌, Bool, true, false, not, ◌&&◌, Option, none, some, List, [],
  ◌∷◌, ◌++◌, ltb, leb, ◌==◌, if◌then◌else◌, bit_set, Bytes, length, get_elem?, set, take, drop,
  Result, ok, err, ◌>>=◌, ◌>>◌, guard, of_option,
}
use elodin.Text.{trim_suffix, split}

abbrev pub type_a : ℕ
type_a = 1

abbrev pub class_in : ℕ
class_in = 1

pub data Error : Type 0 where
  short_message : ℕ → Error
  not_a_response : Error
  name_runs_past : Error
  compression_pointer : Error
  label_runs_past : Error
  question_truncated : Error
  out_of_range : Error
  out_of_fuel : Error

-- `binary.BigEndian.AppendUint16` and `AppendUint32`
abbrev pub u16_be : ℕ → Bytes
u16_be v = (v / 256 % 256) ∷ (v % 256) ∷ []

abbrev pub u32_be : ℕ → Bytes
u32_be v = (v / 2 ^ 24 % 256) ∷ (v / 2 ^ 16 % 256) ∷ (v / 256 % 256) ∷ (v % 256) ∷ []

unfoldable pub byte_at : Bytes → ℕ → Result Error ℕ
byte_at msg i = of_option out_of_range (get_elem? msg i)

-- `binary.BigEndian.Uint16(msg[i : i+2])`
unfoldable pub u16_at : Bytes → ℕ → Result Error ℕ
unfolding byte_at
u16_at msg i = do hi ← byte_at msg i; lo ← byte_at msg (i + 1); ok (hi * 256 + lo)

-- `msg[i : i+n]`
unfoldable pub slice : Bytes → ℕ → ℕ → Result Error Bytes
slice msg i n = do guard (leb (i + n) (length msg)) out_of_range; ok (take n (drop i msg))

-- `binary.BigEndian.PutUint16(buf[i : i+2], v)`
unfoldable pub put_u16 : Bytes → ℕ → ℕ → Result Error Bytes
put_u16 buf i v = do
  guard (leb (i + 2) (length buf)) out_of_range
  ok (set (set buf i (v / 256 % 256)) (i + 1) (v % 256))

-- the loop of `appendName`
unfoldable pub append_labels : Bytes → List Bytes → Bytes
append_labels buf [] = buf
append_labels buf (label ∷ labels) = append_labels (buf ++ ((length label % 256) ∷ label)) labels

append_labels_of : Bytes → Bytes → Bytes
unfolding append_labels split
append_labels_of buf [] = buf
append_labels_of buf (c ∷ name) = append_labels buf (split (c ∷ name) b'.')

unfoldable pub append_name : Bytes → Bytes → Bytes
unfolding append_labels_of trim_suffix
append_name buf name = append_labels_of buf (trim_suffix name b'.') ++ 0 ∷ []

abbrev pub header : ℕ → ℕ → Bytes
header id arcount =
    u16_be id ++ (u16_be 0x0100 ++ (u16_be 1 ++ (u16_be 0 ++ (u16_be 0 ++ u16_be arcount))))

-- the EDNS0 record that `query` appends
abbrev pub opt_record : ℕ → Bool → Bytes
opt_record udp_size dnssec_ok =
    0
    ∷ (u16_be 41
        ++ (u16_be udp_size ++ (0 ∷ 0 ∷ (u16_be (if dnssec_ok then 0x8000 else 0) ++ u16_be 0))))

unfoldable pub query_with : ℕ → Bytes → ℕ → ℕ → Bool → Bytes
query_with id name qtype udp_size dnssec_ok =
    let head = header id (if ltb 0 udp_size then 1 else 0) in
    let question = append_name head name ++ (u16_be qtype ++ u16_be class_in) in
    if ltb 0 udp_size then question ++ opt_record udp_size dnssec_ok else question

unfoldable pub query : ℕ → Bytes → ℕ → ℕ → Bytes
query id name qtype udp_size = query_with id name qtype udp_size false

unfoldable pub query_do : ℕ → Bytes → ℕ → ℕ → Bytes
query_do id name qtype udp_size = query_with id name qtype udp_size true

pub record Reply : Type 0 where
  pub id : ℕ
  pub rcode : ℕ
  pub an_count : ℕ
  pub truncated : Bool
  pub ad : Bool

-- `flags & 0x000F` is `flags % 16`, and a mask of one bit is `bit_set`
unfoldable pub parse_reply : Bytes → Result Error Reply
parse_reply msg = do
  guard (not (ltb (length msg) 12)) (short_message (length msg))
  flags ← u16_at msg 2
  guard (bit_set flags 15) not_a_response
  id ← u16_at msg 0
  an_count ← u16_at msg 6
  ok (record {
    id = id;
    rcode = flags % 16;
    an_count = an_count;
    truncated = bit_set flags 9;
    ad = bit_set flags 5;
  })

-- one round of the loop of `Question`: the label, `none` at the end of the name, and the new offset;
-- `n & 0xC0` is bits 6 and 7
unfoldable pub read_label : Bytes → ℕ → Result Error (Option Bytes × ℕ)
unfolding byte_at slice
read_label msg off = do
  guard (ltb off (length msg)) name_runs_past
  n ← byte_at msg off
  if n == 0 then ok (none, off + 1) else (do
    guard (n / 64 % 4 == 0) compression_pointer
    guard (leb (off + 1 + n) (length msg)) label_runs_past
    label ← slice msg (off + 1) n
    ok (some label, off + 1 + n))

-- the loop of `Question`, with what `sb` holds
unfoldable pub read_name : ℕ → Bytes → ℕ → Bytes → Result Error (Bytes × ℕ)
unfolding read_label
read_name zero msg off sb = err out_of_fuel
read_name (suc fuel) msg off sb = read_label msg off >>= λ r. elim r.0 [
  | none ↦ ok (sb, r.1)
  | some label ↦ read_name fuel msg r.1 (sb ++ (label ++ b'.' ∷ []))
]

unfoldable pub question : Bytes → Result Error (Bytes × ℕ)
question msg = do
  guard (not (ltb (length msg) 12)) (short_message (length msg))
  r ← read_name (suc (length msg)) msg 12 []
  guard (leb (r.1 + 4) (length msg)) question_truncated
  qtype ← u16_at msg r.1
  ok (r.0, qtype)

-- one round of the loop of `questionEnd`: whether the name goes on, and the new offset
unfoldable pub skip_label : Bytes → ℕ → Result Error (Bool × ℕ)
unfolding byte_at
skip_label msg off = do
  guard (ltb off (length msg)) name_runs_past
  n ← byte_at msg off
  if n == 0
      then ok (false, off + 1)
      else (do guard (n / 64 % 4 == 0) compression_pointer; ok (true, off + 1 + n))

unfoldable pub skip_name : ℕ → Bytes → ℕ → Result Error ℕ
skip_name zero msg off = err out_of_fuel
skip_name (suc fuel) msg off =
    skip_label msg off >>= λ r. elim r.0 [ false ↦ ok r.1 | true ↦ skip_name fuel msg r.1 ]

unfoldable pub question_end : Bytes → Result Error ℕ
question_end msg = do
  guard (not (ltb (length msg) 12)) (short_message (length msg))
  off ← skip_name (suc (length msg)) msg 12
  guard (leb (off + 4) (length msg)) question_truncated
  ok (off + 4)

-- the five header fields that both kinds of answer write over the query's
unfoldable pub put_header : Bytes → ℕ → Result Error Bytes
put_header out ancount = do
  out1 ← put_u16 out 2 0x8180
  out2 ← put_u16 out1 4 1
  out3 ← put_u16 out2 6 ancount
  out4 ← put_u16 out3 8 0
  put_u16 out4 10 0

-- one A record under a pointer to the question's name
abbrev pub a_record : Bytes → ℕ → Bytes
a_record ip ttl =
    0xC0 ∷ 0x0C ∷ (u16_be type_a ++ (u16_be class_in ++ (u32_be ttl ++ (u16_be 4 ++ ip))))

unfoldable pub answer_a : Bytes → Bytes → ℕ → Result Error Bytes
answer_a query ip ttl = do
  q_end ← question_end query
  out ← slice query 0 q_end
  out' ← put_header out 1
  ok (out' ++ a_record ip ttl)

unfoldable pub answer_empty : Bytes → Result Error Bytes
answer_empty query = do q_end ← question_end query; out ← slice query 0 q_end; put_header out 0
