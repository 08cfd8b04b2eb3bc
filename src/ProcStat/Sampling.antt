-- ===== src/ProcStat/Sampling.antt =====
-- The peaks that the sampler keeps.
use elodin.Common.{ℕ, ◌≤◌, List, [], ◌∷◌, Bytes, Option, Result, ok, err, arith}
use elodin.ProcStat.{Error, Sampler, key, higher, rss_bytes, thread_count, tick, ticks}

-- a reading is no higher than the peak
abbrev pub AtMost : Result Error ℕ → ℕ → Type 0
AtMost (err e) peak = Unit
AtMost (ok n) peak = key n ≤ key peak

higher-AtMost :
    (r : Result Error ℕ) (peak : ℕ) → AtMost r (higher r peak) × (key peak ≤ key (higher r peak))
unfolding higher
higher-AtMost (err e) peak = (tt, omega arith)
higher-AtMost (ok n) peak = ground arith

AtMost-trans :
    (r : Result Error ℕ) (low high : ℕ) → AtMost r low → key low ≤ key high → AtMost r high
AtMost-trans (err e) low high a le = tt
AtMost-trans (ok n) low high a le = omega arith

-- both peaks of `s` stand at or above every reading
abbrev pub Peaks : List (Option Bytes × Option Bytes) → Sampler → Type 0
Peaks [] s = Unit
Peaks ((status, again) ∷ more) s =
    AtMost (rss_bytes status) s.peak_rss × AtMost (thread_count again) s.max_threads × Peaks more s

ticks-grow :
    (readings : List (Option Bytes × Option Bytes)) (s : Sampler)
    → (key s.peak_rss ≤ key (ticks s readings).peak_rss)
      × (key s.max_threads ≤ key (ticks s readings).max_threads)
unfolding ticks tick
ticks-grow [] s = (omega arith, omega arith)
ticks-grow ((status, again) ∷ more) s =
    let (rss, threads) = ticks-grow more (tick s (status, again)) in
    let (_, first) = higher-AtMost (rss_bytes status) s.peak_rss in
    let (_, second) = higher-AtMost (thread_count again) s.max_threads in (omega arith, omega arith)

-- After any ticks no reading of the memory or of the threads that succeeded is above its peak, as
-- `int64`s are compared, and neither peak is below what it was.
pub ticks-Peaks :
    (readings : List (Option Bytes × Option Bytes)) (s : Sampler)
    → Peaks readings (ticks s readings)
      × (key s.peak_rss ≤ key (ticks s readings).peak_rss)
      × (key s.max_threads ≤ key (ticks s readings).max_threads)
unfolding ticks tick
ticks-Peaks [] s = (tt, omega arith, omega arith)
ticks-Peaks ((status, again) ∷ more) s =
    let s' = tick s (status, again) in
    let (rss, threads) = ticks-grow more s' in
    let (later, _, _) = ticks-Peaks more s' in
    let (low, _) = higher-AtMost (rss_bytes status) s.peak_rss in
    let (few, _) = higher-AtMost (thread_count again) s.max_threads in
    let (grown, more_threads) = ticks-grow ((status, again) ∷ more) s in
    (
      (
        AtMost-trans (rss_bytes status) s'.peak_rss (ticks s' more).peak_rss low rss,
        AtMost-trans (thread_count again) s'.max_threads (ticks s' more).max_threads few threads,
        later,
      ),
      grown,
      more_threads,
    )
