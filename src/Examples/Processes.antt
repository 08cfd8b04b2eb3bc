-- ===== src/Examples/Processes.antt =====
-- The readers of /proc at concrete texts.
use elodin.Common.{◌≤◌, ◌≡◌, refl, true, false, some, none, List, [], ◌∷◌, Option, Bytes, codes, ok}
use elodin.Text.{has_prefix, fields, split}
use elodin.ProcStat.{new_sampler, key, rss_bytes, thread_count, parse_int, cpu_fields, ticks}
use elodin.ProcStat.Sampling.{Peaks, ticks-Peaks}

abbrev rss_line : Bytes
rss_line = codes "VmRSS:\t  20 kB"

rss_line_prefix : has_prefix rss_line (codes "VmRSS:") ≡ true
unfolding has_prefix
rss_line_prefix = refl

name_line_prefix : has_prefix (codes "Name: x") (codes "VmRSS:") ≡ false
unfolding has_prefix
name_line_prefix = refl

twenty_kb : rss_bytes (some (codes "Name: x\nVmRSS:\t  20 kB\nThreads:\t4\n")) ≡ ok 20480
unfolding rss_bytes fields split has_prefix
twenty_kb = refl

four_threads : thread_count (some (codes "Name: x\nThreads:\t4\n")) ≡ ok 4
unfolding thread_count fields split has_prefix
four_threads = refl

-- a name with a blank and a parenthesis in it
abbrev stat_name : Bytes
stat_name = codes "7 (a) b"

abbrev stat_rest : Bytes
stat_rest = codes " S 1 2 3 4 5 6 7 8 9 10 150 50 0"

two_seconds : cpu_fields (fields stat_rest) ≡ ok 2000000000
unfolding cpu_fields fields parse_int
two_seconds = refl

abbrev readings : List (Option Bytes × Option Bytes)
readings =
    (some (codes "VmRSS: 20 kB"), some (codes "Threads: 4"))
    ∷ (none, some (codes "Threads: 2"))
    ∷ []

ticks-Peaks_example :
    Peaks readings (ticks new_sampler readings)
    × (key new_sampler.peak_rss ≤ key (ticks new_sampler readings).peak_rss)
    × (key new_sampler.max_threads ≤ key (ticks new_sampler readings).max_threads)
ticks-Peaks_example = ticks-Peaks readings new_sampler
