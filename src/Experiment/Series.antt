-- ===== src/Experiment/Series.antt =====
-- bench/cmd/rrlexp/soak.go and arms_upstream.go: the rows of a series of readings.
--
-- A difference of two counters is held as both, the later first, since it can be negative; a rate is such
-- a difference and the length of its window in nanoseconds. The share of a count is the count and the
-- whole, or nothing where the whole is 0.
use elodin.Common.{
  ℕ, ◌-◌, ◌/◌, max, Bool, true, false, not, ◌&&◌, ◌||◌, Option, none, some, List, [], ◌∷◌, ltb, leb,
  ◌==◌, is_none, if◌then◌else◌, Bytes, codes, length,
}
use elodin.Hist.{Quantile}
use elodin.Experiment.Matrix.{Row}
use elodin.Experiment.Recovery.{
  Sample, good_sample, sample_at, window_pct, Parked, parked, Recovered, recovered,
}
use elodin.Experiment.Tables.{counter}

unfoldable pub has_samples : List Row → Bool
has_samples [] = false
has_samples (r ∷ rows) =
    let rest = has_samples rows in
    if ltb 1 (length r.samples) && is_none r.arm.fail then true else rest

-- the figures of one row of the soak's table
pub record SoakRow : Type 0 where
  pub at : ℕ
  pub window : ℕ
  pub gauges : List ℕ
  pub rates : List (ℕ × ℕ)
  pub victim : Option (ℕ × ℕ)
  pub victim_refused : ℕ

abbrev both : Sample → Sample → Bytes → ℕ × ℕ
both s prev name = (counter s.srv name, counter prev.srv name)

-- `soakRow`: nothing but the time where the server could not be read; a window is one second at least
unfoldable pub soak_row : Sample → Sample → Option SoakRow
unfolding counter
soak_row s prev =
    let offered = s.victim_offered - prev.victim_offered in
    if not s.ok
    then none
    else some (record {
      at = s.at;
      window = if leb s.at prev.at then 1000000000 else s.at - prev.at;
      gauges =
          counter s.srv (codes "process_resident_memory_bytes") / 1048576
          ∷ counter s.srv (codes "process_threads")
          ∷ counter s.srv (codes "process_open_fds")
          ∷ counter s.srv (codes "elodin_cache_entries")
          ∷ counter s.srv (codes "elodin_cache_bytes") / 1048576
          ∷ counter s.srv (codes "elodin_connections_active")
          ∷ counter s.srv (codes "elodin_connections_refused_total")
          ∷ [];
      rates =
          both s prev (codes "elodin_queries_total")
          ∷ both s prev (codes "elodin_rate_limited_total")
          ∷ [];
      victim = if ltb 0 offered then some (s.victim_full - prev.victim_full, offered) else none;
      victim_refused = s.victim_closed - prev.victim_closed;
    })

-- each reading with the one its window begins at: the loop of `soakTable`
unfoldable pub soak_windows : Sample → List Sample → List (Sample × Sample)
soak_windows prev [] = []
soak_windows prev (s ∷ samples) = (s, prev) ∷ soak_windows (if s.ok then s else prev) samples

unfoldable pub soak_rows : List (Sample × Sample) → List (Option SoakRow)
unfolding soak_row
soak_rows [] = []
soak_rows ((s, prev) ∷ windows) = soak_row s prev ∷ soak_rows windows

-- the rows of one arm in `soakTable`, if it has any
unfoldable pub soak_series : Row → Option (List (Option SoakRow))
unfolding soak_windows soak_rows
soak_series r = elim r.samples [
  | [] ↦ none
  | first ∷ samples ↦
      if ltb (length (first ∷ samples)) 2 || not (is_none r.arm.fail)
      then none
      else some (soak_rows (soak_windows first samples))
]

-- `soakVerdict`: the memory in MB, the threads, the descriptors and the cache entries, from and to, and
-- the time between
unfoldable pub soak_verdict : List Sample → Option (List (ℕ × ℕ) × ℕ)
unfolding good_sample counter
soak_verdict samples =
    let first = good_sample samples false in
    let last = good_sample samples true in
    let mb : Sample → ℕ = λ s. counter s.srv (codes "process_resident_memory_bytes") / 1048576 in
    let from_to : Bytes → ℕ × ℕ = λ name. (counter first.srv name, counter last.srv name) in
    if first.at == last.at || (not first.ok || not last.ok)
    then none
    else some (
      (mb first, mb last)
          ∷ from_to (codes "process_threads")
          ∷ from_to (codes "process_open_fds")
          ∷ from_to (codes "elodin_cache_entries")
          ∷ [],
      last.at - first.at,
    )

unfoldable pub share : ℕ → ℕ → Option (ℕ × ℕ)
share n whole = if not (ltb 0 whole) then none else some (n, whole)

-- the readings of `failSeries`: one that failed has no window, and begins none
unfoldable pub fail_windows : Sample → List Sample → List (Option (Sample × Sample))
fail_windows prev [] = []
fail_windows prev (s ∷ samples) =
    let missed = none ∷ fail_windows prev samples in
    let read = some (s, prev) ∷ fail_windows s samples in if not s.ok then missed else read

-- the most queries in flight in the readings
unfoldable pub peak_inflight : List Sample → ℕ → ℕ
unfolding counter
peak_inflight [] peak = peak
peak_inflight (s ∷ samples) peak =
    peak_inflight samples (max peak (counter s.srv (codes "elodin_queries_inflight")))

-- the figures of `failSummary`
pub record FailSummary : Type 0 where
  pub victim_share : Option (ℕ × ℕ)
  pub p50 : Option ℕ
  pub p99 : Option ℕ
  pub miss_share : Option (ℕ × ℕ)
  pub peak : ℕ
  pub shed : ℕ × ℕ
  pub stale : ℕ × ℕ
  pub gauge : Parked
  pub back : Recovered

unfoldable pub fail_summary : Quantile → Quantile → Row → Sample → List Sample → FailSummary
unfolding sample_at window_pct share peak_inflight parked recovered counter
fail_summary half most r first samples =
    let from = sample_at (first ∷ samples) r.down_at in
    let to = sample_at (first ∷ samples) r.up_at in
    record {
      victim_share =
          share (to.victim_full - from.victim_full) (to.victim_offered - from.victim_offered);
      p50 = window_pct r.victim.lat from to half;
      p99 = window_pct r.victim.lat from to most;
      miss_share =
          share (to.attacker_full - from.attacker_full)
            (to.attacker_offered - from.attacker_offered);
      peak = peak_inflight (first ∷ samples) 0;
      shed = both to from (codes "elodin_queries_dropped_total");
      stale = both to from (codes "elodin_cache_stale_total");
      gauge = parked (first ∷ samples);
      back = recovered (record { down_at = r.down_at; up_at = r.up_at }) first samples;
    }
