-- ===== src/ProcStat.antt =====
-- bench/internal/procstat/procstat.go: the memory, the processor time and the threads of a process.
--
-- A file under /proc is its text, or nothing where it cannot be read; its numbers have no sign. An
-- `int64` is its two's complement, a number below 2 ^ 64. Sampler.Start and Stop are what they do at each
-- tick, at the start and at the end; the goroutine and its channels are not modelled.
pub mod Reading
pub mod Sampling
use elodin.Common.{
  ℕ, zero, suc, ◌+◌, ◌-◌, ◌*◌, ◌/◌, ◌%◌, ◌^◌, Bool, true, false, not, ◌&&◌, Option, none, some,
  List, [], ◌∷◌, ltb, leb, ◌==◌, if◌then◌else◌, Bytes, codes, length, get_or, drop, Result, ok, err,
  ◌>>=◌, guard, of_option, ◌>>◌, value,
}
use elodin.Text.{has_prefix, split, fields}

pub data Error : Type 0 where
  no_file cannot_parse no_number no_line : Error

abbrev pub clock_ticks : ℕ
clock_ticks = 100

-- `strconv.ParseInt(s, 10, 64)` of an unsigned numeral
abbrev parse_digits : Bytes → ℕ → Option ℕ
parse_digits [] n = some n
parse_digits (c ∷ s) n = if leb 48 c && leb c 57 then parse_digits s (n * 10 + (c - 48)) else none

unfoldable pub parse_int : Bytes → Result Error ℕ
parse_int [] = err no_number
parse_int (c ∷ s) = do
  n ← of_option no_number (parse_digits (c ∷ s) 0)
  guard (ltb n (2 ^ 63)) no_number
  ok n

-- the second field of a line
unfoldable pub second_field : Bytes → Result Error ℕ
unfolding parse_int
second_field line = do
  guard (not (ltb (length (fields line)) 2)) cannot_parse
  parse_int (get_or (fields line) 1 [])

-- the loop over the lines of /proc/<pid>/status: the second field of the first line with the prefix
unfoldable pub status_loop : Bytes → List Bytes → Result Error ℕ
unfolding second_field
status_loop prefix [] = err no_line
status_loop prefix (line ∷ lines) =
    let later = status_loop prefix lines in
    if not (has_prefix line prefix) then later else second_field line

unfoldable pub rss_bytes : Option Bytes → Result Error ℕ
unfolding status_loop
rss_bytes data_read = do
  text ← of_option no_file data_read
  kb ← status_loop (codes "VmRSS:") (split text b'\n')
  ok (kb * 1024 % 2 ^ 64)

unfoldable pub thread_count : Option Bytes → Result Error ℕ
unfolding status_loop
thread_count data_read = do
  text ← of_option no_file data_read
  status_loop (codes "Threads:") (split text b'\n')

-- `strings.LastIndex` of one byte
unfoldable pub last_index : Bytes → ℕ → Option ℕ
last_index [] b = none
last_index (c ∷ s) b = elim (last_index s b) [
  | some i ↦ some (suc i)
  | none ↦ if c == b then some 0 else none
]

-- the quotient of an `int64` by a positive number, towards zero
abbrev quotient : ℕ → ℕ → ℕ
quotient a d = if ltb a (2 ^ 63) then a / d else (2 ^ 64 - (2 ^ 64 - a) / d) % 2 ^ 64

-- `CPUTime` from the fields behind the name on
unfoldable pub cpu_fields : List Bytes → Result Error ℕ
cpu_fields after = do
  guard (not (ltb (length after) 13)) cannot_parse
  utime ← parse_int (get_or after 11 [])
  stime ← parse_int (get_or after 12 [])
  ok (quotient ((utime + stime) * 1000000000 % 2 ^ 64) clock_ticks)

unfoldable pub cpu_time : Option Bytes → Result Error ℕ
unfolding last_index cpu_fields
cpu_time data_read = do
  text ← of_option no_file data_read
  end ← of_option cannot_parse (last_index text b')')
  cpu_fields (fields (drop (end + 1) text))

pub record Sampler : Type 0 where
  pub peak_rss : ℕ
  pub cpu_start : ℕ
  pub cpu_end : ℕ
  pub max_threads : ℕ

unfoldable pub new_sampler : Sampler
new_sampler = record { peak_rss = 0; cpu_start = 0; cpu_end = 0; max_threads = 0 }

-- what an `int64` is compared by
unfoldable pub key : ℕ → ℕ
key a = (a + 2 ^ 63) % 2 ^ 64

-- the greater of the maximum so far and a reading, if there is one
unfoldable pub higher : Result Error ℕ → ℕ → ℕ
higher (err e) peak = peak
higher (ok n) peak = if ltb (key peak) (key n) then n else peak

-- the time read, 0 where it cannot be
abbrev time_or_zero : Result Error ℕ → ℕ
time_or_zero (ok t) = t
time_or_zero (err e) = 0

-- `Start`, before its goroutine
unfoldable pub start : Sampler → Option Bytes → Sampler
start s stat = record s { cpu_start = time_or_zero (cpu_time stat) }

-- a tick of the goroutine of `Start`, with the two readings of /proc/<pid>/status
unfoldable pub tick : Sampler → Option Bytes × Option Bytes → Sampler
unfolding higher
tick s (status, again) = record s {
  peak_rss = higher (rss_bytes status) s.peak_rss;
  max_threads = higher (thread_count again) s.max_threads;
}

unfoldable pub ticks : Sampler → List (Option Bytes × Option Bytes) → Sampler
unfolding tick
ticks s [] = s
ticks s (r ∷ more) = ticks (tick s r) more

unfoldable pub stop : Sampler → Option Bytes → Sampler
stop s stat = record s { cpu_end = time_or_zero (cpu_time stat) }

unfoldable pub cpu_used : Sampler → ℕ
cpu_used s = (s.cpu_end + 2 ^ 64 - s.cpu_start) % 2 ^ 64
