-- ===== src/Experiment/Metrics.antt =====
-- bench/cmd/rrlexp: the counters that the server shows (server.go), and the summaries of codes (main.go).
--
-- What is read off the metrics endpoint is input, or nothing where it cannot be reached. A number there
-- has no sign. A map is its entries.
use elodin.Common.{
  ℕ, Bool, ◌&&◌, Option, none, some, List, [], ◌∷◌, ◌++◌, map, leb, ◌==◌, if◌then◌else◌, Bytes,
  codes, value,
}
use elodin.Text.{str_eq, has_prefix, split, join, fields, decimal}
use elodin.ProcStat.{parse_int}

abbrev pub is_digit : ℕ → Bool
is_digit c = leb 48 c && leb c 57

unfoldable pub leading_digits : Bytes → Bytes
leading_digits [] = []
leading_digits (c ∷ s) = let rest = leading_digits s in if is_digit c then c ∷ rest else []

-- `fmt.Sscanf(s, "%d", &v)`, which reads the digits at the front
unfoldable pub scan_int : Bytes → Option ℕ
unfolding leading_digits parse_int
scan_int s = value (parse_int (leading_digits s))

-- `got[name] = v`
unfoldable pub put_counter : Bytes → ℕ → List (Bytes × ℕ) → List (Bytes × ℕ)
unfolding str_eq
put_counter name v [] = (name, v) ∷ []
put_counter name v ((other, n) ∷ got) =
    let later = (other, n) ∷ put_counter name v got in
    if str_eq other name then (other, v) ∷ got else later

-- the fields of a line of `counters`
unfoldable pub count_fields : List Bytes → List (Bytes × ℕ) → List (Bytes × ℕ)
unfolding scan_int put_counter
count_fields (name ∷ v ∷ []) got = elim (scan_int v) [
  | none ↦ got
  | some n ↦ put_counter name n got
]
count_fields other got = got

unfoldable pub count_lines : List Bytes → List (Bytes × ℕ) → List (Bytes × ℕ)
unfolding count_fields fields has_prefix
count_lines [] got = got
count_lines (line ∷ lines) got =
    let passed = count_lines lines got in
    let counted = count_lines lines (count_fields (fields line) got) in
    if has_prefix line (codes "#") then passed else counted

-- `counters` of what was read
unfoldable pub counters : Option Bytes → List (Bytes × ℕ)
unfolding count_lines split
counters none = []
counters (some body) = count_lines (split body b'\n') []

-- `sort.Ints` of the codes, each with its count
unfoldable pub insert_code : ℕ × ℕ → List (ℕ × ℕ) → List (ℕ × ℕ)
insert_code c [] = c ∷ []
insert_code c (d ∷ rest) =
    let later = d ∷ insert_code c rest in if leb c.0 d.0 then c ∷ d ∷ rest else later

unfoldable pub sort_codes : List (ℕ × ℕ) → List (ℕ × ℕ)
unfolding insert_code
sort_codes [] = []
sort_codes (c ∷ rest) = insert_code c (sort_codes rest)

-- the text of the dash that stands for nothing
abbrev pub dash_text : Bytes
dash_text = 226 ∷ 128 ∷ 148 ∷ []

-- the parts of a summary, or a dash
abbrev pub summary : (ℕ × ℕ → Bytes) → List (ℕ × ℕ) → Bytes
summary part [] = dash_text
summary part (c ∷ rest) = join (map part (sort_codes (c ∷ rest))) (codes ", ")

abbrev pub status_part : ℕ × ℕ → Bytes
status_part (code, n) = decimal n ++ (195 ∷ 151 ∷ decimal code)

-- `statusSummary`
unfoldable pub status_summary : List (ℕ × ℕ) → Bytes
unfolding sort_codes join decimal
status_summary statuses = summary status_part statuses

abbrev rcode_text : ℕ → Bytes
rcode_text c =
    if c == 0
    then codes "NOERROR"
    else if c == 1
    then codes "FORMERR"
    else if c == 2
    then codes "SERVFAIL"
    else if c == 3
    then codes "NXDOMAIN"
    else if c == 4
    then codes "NOTIMP"
    else if c == 5
    then codes "REFUSED"
    else codes "rcode" ++ decimal c

-- `rcodeSummary`
unfoldable pub rcode_summary : List (ℕ × ℕ) → Bytes
unfolding sort_codes join decimal
rcode_summary rcodes = summary (λ c. rcode_text c.0 ++ (32 ∷ decimal c.1)) rcodes
