-- ===== src/Bench/Weighing.antt =====
-- bench/cmd/bench/scenarios.go: what a server weighs, and what its log of queries costs.
--
-- `secs*500_000*220` is exact here, over nanoseconds. The removal of a log is not modelled.
use elodin.Common.{
  ℕ, ◌+◌, ◌*◌, ◌/◌, ◌%◌, ◌^◌, min, max, ltb, ◌==◌, Bool, true, false, none, some, List, [], ◌∷◌,
  ◌++◌, if◌then◌else◌, Bytes, codes, Result, ok, err,
}
use elodin.Bench.Load.{Run}
use elodin.Bench.Options.{ServerOpts}
use elodin.Bench.Servers.{Server}
use elodin.Bench.Competitors.{udp}
use elodin.Bench.Acts.{
  Trouble, Act, pure, fail_with, ◌>>=◌, ◌>>◌, attempt, reading, no_stat, no_room, disk_filled,
}
use elodin.Bench.Runs.{asks}
use elodin.Bench.Machine.{Machine, Statfs, start, release, deferred, measure, rss, serves}
use elodin.Bench.Tables.{list_rules}
use elodin.Bench.Scaling.{unique}
use elodin.Bench.Cells.{
  Cell, text, count, qps, mib, mib_above, per_item, per_entry, spread, cost, Line, line, Section,
}

-- `idleRSS`
unfoldable pub idle_rss : Machine → ServerOpts → Act ℕ
idle_rss m o = start m o >>= λ s. deferred s (rss m s)

-- `cacheFill`: the size before is kept for the difference
pub record CacheFill : Type 0 where
  pub entries : ℕ
  pub before : ℕ
  pub total : ℕ

-- `cacheFilledRSS` on its server
unfoldable pub fill_server : Machine → ServerOpts → Server → Act CacheFill
fill_server m o s = do
  before ← rss m s
  r ← measure m s (record (asks udp 128) { qmode = unique; duration = 30000000000 })
  pure
      (record { entries = min r.0.answered o.cache_entries; before = before; total = r.1.peak_rss })

unfoldable pub cache_filled_rss : Machine → ServerOpts → Act CacheFill
cache_filled_rss m o = start m o >>= λ s. deferred s (fill_server m o s)

-- a server of the memory table
abbrev weighed : Bytes → ℕ → ℕ → ServerOpts
weighed name entries rules = record (serves name []) {
  cache = true;
  cache_entries = entries;
  block_rules = rules;
}

unfoldable pub memory : Machine → Act Section
memory m = do
  idle ← idle_rss m (weighed (codes "mem-idle") 0 0)
  with_list ← idle_rss m (weighed (codes "mem-lists") 0 list_rules)
  small ← cache_filled_rss m (weighed (codes "mem-cache-small") 1000 list_rules)
  big ← cache_filled_rss m (weighed (codes "mem-cache-big") 200000 list_rules)
  pure (record {
    title = codes "Memory";
    body =
        line (text (codes "idle, no lists") ∷ mib idle ∷ [])
        ++ (line (
              text (codes "blocklists")
              ∷ per_item with_list idle list_rules
              ∷ mib_above with_list idle
              ∷ count list_rules
              ∷ [])
            ++ (line (
                  text (codes "answer cache")
                  ∷ per_entry big.total small.total big.entries small.entries
                  ∷ [])
                ++ line (
                    text (codes "realistic total under load")
                    ∷ mib big.total
                    ∷ count list_rules
                    ∷ count big.entries
                    ∷ [])));
  })

-- `logDiskNeeded`
unfoldable pub log_disk_needed : Machine → ℕ
log_disk_needed m = max m.repeat 1 * (m.warmup + m.duration) * 11 / 100 * 3 / 2

-- `freeBytes` of a filesystem
unfoldable pub free_bytes : Statfs → ℕ
free_bytes fs = fs.bavail * (if fs.frsize == 0 then fs.bsize else fs.frsize) % 2 ^ 64

-- what `freeBytes` is asked for, refused below a number of bytes with the error for what is free
unfoldable pub room : Machine → ℕ → (ℕ → Trouble) → Act (Unit {0})
unfolding free_bytes
room m need refused = reading m.disk >>= λ found. elim found as (λ _. Act (Unit {0})) [
  | none ↦ fail_with no_stat
  | some fs ↦ if ltb (free_bytes fs) need then fail_with (refused (free_bytes fs)) else pure tt
]

-- `logDiskRoom` and `logDiskFilled`
unfoldable pub log_disk_room : Machine → Act (Unit {0})
log_disk_room m = room m (log_disk_needed m) no_room

unfoldable pub log_disk_filled : Machine → Act (Unit {0})
log_disk_filled m = room m 67108864 disk_filled

-- a server that logs its queries or not
abbrev logs : Bytes → Bool → ServerOpts
logs name on = record (serves name []) { cache = true; log_queries = on; log_level = codes "info" }

-- what follows the run of a server that was stopped: its result, unless the disk is full
unfoldable pub unless_filled : Machine → Result Trouble Run → Act Run
unless_filled m (err e) = fail_with e
unless_filled m (ok r) = log_disk_filled m >> pure r

-- one run of `loggingCost`
unfoldable pub log_run : Machine → Bytes → Bool → Act Run
log_run m name on = do
  s ← start m (logs name on)
  result ← attempt (measure m s (asks udp 200))
  release s
  unless_filled m result

abbrev log_row : Bytes → Run → Cell → List Line
log_row on r c = line (text on ∷ qps r.0 ∷ spread r.1 ∷ c ∷ [])

-- the run whose log is measured: its report, and the size of the log before and after
unfoldable pub log_bytes : Machine → Act (Run × ℕ × ℕ)
log_bytes m = do
  s ← start m (logs (codes "log-bytes") true)
  before ← reading (λ t. m.log_size t s)
  result ← attempt (measure m s (record (asks udp 200) { repeat = 1 }))
  release s
  after ← reading (λ t. m.log_size t s)
  r ← unless_filled m result
  pure (r, before, after)

unfoldable pub logging_cost : Machine → Act Section
logging_cost m = do
  off ← log_run m (codes "log-false") false
  on ← log_run m (codes "log-true") true
  w ← log_bytes m
  pure (record {
    title = codes "Cost of query logging";
    body =
        log_row (codes "false") off (text [])
        ++ (log_row (codes "true") on (if ltb 0 off.0.qps then cost off.0 on.0 else text [])
            ++ line (
                qps w.0.0 ∷ per_item w.2 w.1 w.0.0.seconds ∷ per_item w.2 w.1 w.0.0.answered ∷ []));
  })
