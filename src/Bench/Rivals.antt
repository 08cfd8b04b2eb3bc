-- ===== src/Bench/Rivals.antt =====
-- bench/cmd/bench/compare.go: the comparison of servers, cell by cell.
--
-- A cell that could not be measured reads "failed", and a note says why. That the cached name is asked for
-- once before the hits has no effect here, and neither have the pauses.
use elodin.Common.{
  ℕ, ◌*◌, min, ltb, true, none, some, List, [], ◌∷◌, ◌++◌, drop, get_or, if◌then◌else◌, Bytes,
  codes, Result, ok, err,
}
use elodin.Bench.Load.{Run, label, load}
use elodin.Bench.Ladder.{Failure, load_failed, Offered, Row, miss_ladder, miss_row, wait_blocked}
use elodin.Bench.Options.{ServerOpts}
use elodin.Bench.Servers.{Server}
use elodin.Bench.Competitors.{supports, udp, tcp, dot, doh1, doh2}
use elodin.Bench.Acts.{
  Trouble, Act, pure, ◌>>=◌, ◌>>◌, attempt, of_result, refit, for_each, reading, not_blocked,
  not_climbed,
}
use elodin.Bench.Runs.{LoadOpts, load_defaults, asks, load_once}
use elodin.Bench.Machine.{Machine, start, release, deferred, measure_as, rss, serves}
use elodin.Bench.Tables.{noerror, nxdomain, list_rules}
use elodin.Bench.Scaling.{unique}
use elodin.Bench.Weighing.{idle_rss}
use elodin.Bench.Cells.{
  Cell, server, mib, per_item, per_entry, per_entry_filled, hits, climbed, failed, dash, Line, line,
}

-- `fail` of `compare`
unfoldable pub fail_cell : Bytes → Bytes → Trouble → Act Cell
fail_cell kind what e w =
    (ok failed, record w { notes = w.notes ++ record { server = kind; what = what; why = e } ∷ [] })

-- a cell made of what a call returns, or one that failed
unfoldable pub cell_of {ℓ} : {A : Type ℓ} → Bytes → Bytes → (A → Cell) → Act A → Act Cell
cell_of kind what show a = attempt a >>= λ r. elim r as (λ _. Act Cell) [
  | err e ↦ fail_cell kind what e
  | ok x ↦ pure (show x)
]

-- `waitBlocked` of a server
unfoldable pub await_list : Machine → Server → Act (Unit {0})
unfolding wait_blocked
await_list m s = reading (λ t. refit not_blocked (wait_blocked (m.polls t s) none)) >>= of_result

-- `listRSS`
unfoldable pub list_rss : Machine → Bytes → Act ℕ
list_rss m kind =
    start m (record (serves (codes "cmp-list") kind) { cache = true; block_rules = list_rules })
    >>= λ s. deferred s (await_list m s >> rss m s)

-- `fill` of `perCacheEntry`: the memory and the entries
unfoldable pub fill : Machine → Bytes → ℕ → Act (ℕ × ℕ)
fill m kind entries =
    start m (record (serves (codes "cmp-cache") kind) { cache = true; cache_entries = entries })
    >>= λ s. deferred s (
        measure_as noerror m s
          (record (asks udp 128) { qmode = unique; duration = 40000000000; repeat = 1 })
        >>= λ r. rss m s >>= λ weight. pure (weight, min r.0.answered entries))

-- `perCacheEntry`: what the smaller cache and the larger one hold
unfoldable pub per_cache_entry : Machine → Bytes → Act ((ℕ × ℕ) × (ℕ × ℕ))
per_cache_entry m kind = fill m kind 1000 >>= λ a. fill m kind 200000 >>= λ b. pure (a, b)

abbrev entry_cell : (ℕ × ℕ) × (ℕ × ℕ) → Cell
entry_cell ((a, na), (b, nb)) =
    if ltb nb 200000 then per_entry_filled b a nb na else per_entry b a nb na

-- the memory of an idle server, 0 if it was not measured
abbrev size_of : Result Trouble ℕ → ℕ
size_of (ok n) = n
size_of (err e) = 0

-- the cells of the list in `compareMemory`, beside the size of the idle server
unfoldable pub list_cells : Machine → Bytes → ℕ → Act (List Cell)
unfolding supports
list_cells m kind idle =
    let measured = attempt (list_rss m kind) >>= λ r. elim r as (λ _. Act (List Cell)) [
      | err e ↦ fail_cell kind (codes "list") e >>= λ c. pure (c ∷ dash ∷ [])
      | ok weight ↦
          pure (mib weight ∷ (if ltb 0 idle then per_item weight idle list_rules else dash) ∷ [])
    ] in
    if supports kind (codes "block") then measured else pure (dash ∷ dash ∷ [])

-- a row of `compareMemory`
unfoldable pub memory_row : Machine → Bytes → Act (List Line)
memory_row m kind =
    attempt (idle_rss m (record (serves (codes "cmp-idle") kind) { cache = true })) >>= λ idle.
    cell_of kind (codes "idle") mib (of_result idle) >>= λ c.
    list_cells m kind (size_of idle) >>= λ cs.
    cell_of kind (codes "cache entry") entry_cell (per_cache_entry m kind) >>= λ entry.
    pure (line (server kind ∷ c ∷ cs ++ entry ∷ []))

abbrev hits_of : Run → Cell
hits_of r = hits r.0 r.1

-- `hitCell`
unfoldable pub hit_cell : Machine → Server → Bytes → Bytes → Act Cell
unfolding supports label
hit_cell m s kind t =
    let measured =
      cell_of kind (label t) hits_of
        (measure_as noerror m s (record (asks t 100) { cpus = codes "2-3" })) in
    if supports kind t then measured else pure dash

-- `blockedCell`
unfoldable pub blocked_cell : Machine → Bytes → Act Cell
unfolding supports
blocked_cell m kind =
    let measured = cell_of kind (codes "blocked") hits_of (
      start m (record (serves (codes "cmp-blocked") kind) {
        cache = true;
        block_rules = list_rules;
        loops = 2;
        cpus = codes "0-1";
      })
      >>= λ s. deferred s (
          await_list m s
          >> measure_as nxdomain m s (record (asks udp 100) {
            qname = codes "blocked.bench.test";
            cpus = codes "2-3";
          }))) in
    if supports kind (codes "block") then measured else pure dash

-- a row of `compareHits` on its server
unfoldable pub hits_served : Machine → Bytes → Server → Act (List Line)
hits_served m kind s = do
  cs ←
      for_each (λ t. hit_cell m s kind t >>= λ c. pure (c ∷ []))
        (udp ∷ tcp ∷ dot ∷ doh1 ∷ doh2 ∷ [])
  release s
  b ← blocked_cell m kind
  pure (line (server kind ∷ cs ++ b ∷ []))

-- a row of a server that did not start, or one on the server
abbrev pub on_start : Bytes → (Server → Act (List Line)) → Result Trouble Server → Act (List Line)
on_start kind served (err e) =
    fail_cell kind (codes "start") e >>= λ c. pure (line (server kind ∷ c ∷ []))
on_start kind served (ok s) = served s

unfoldable pub row_on : Machine → Bytes → ServerOpts → (Server → Act (List Line)) → Act (List Line)
row_on m kind o served = attempt (start m o) >>= on_start kind served

-- a server on two cores
abbrev two_cores : Bytes → Bytes → ServerOpts
two_cores name kind = record (serves name kind) { cache = true; loops = 2; cpus = codes "0-1" }

-- a row of `compareHits`
unfoldable pub hits_row : Machine → Bytes → Act (List Line)
hits_row m kind = row_on m kind (two_cores (codes "cmp-hits") kind) (hits_served m kind)

-- what `missRow` asks `load` for
unfoldable pub miss_load : Offered → LoadOpts
miss_load o = record (asks udp 4000) {
  qmode = unique;
  rate = o.rate;
  cpus = codes "2-3";
  repeat = o.repeat;
  duration = elim o.seconds [ none ↦ 0 | some n ↦ n * 1000000000 ];
}

-- a run of the ladder
unfoldable pub offered_load : Machine → ℕ → Server → Offered → Result Failure Run
unfolding load load_defaults miss_load
offered_load m t s o =
    elim (load m.repeat o.repeat
      (λ i. load_once (m.generator t s (load_defaults m.duration (miss_load o)) i))) [
        | err e ↦ err load_failed
        | ok r ↦ ok r
      ]

-- `missRow`, on the ladder
unfoldable pub climb_server : Machine → Server → Act Row
unfolding offered_load miss_row miss_ladder
climb_server m s =
    reading (λ t.
      refit not_climbed
        (miss_row (offered_load m t s) (get_or miss_ladder 0 0) (drop 1 miss_ladder)))
    >>= of_result

-- a row of `compareMisses` on its server
unfoldable pub climb_served : Machine → Bytes → Server → Act (List Line)
climb_served m kind s = do
  r ← attempt (climb_server m s)
  release s
  c ← cell_of kind (codes "misses") climbed (of_result r)
  pure (line (server kind ∷ c ∷ []))

unfoldable pub climb_row : Machine → Bytes → Act (List Line)
climb_row m kind =
    row_on m kind (record (two_cores (codes "cmp-miss") kind) { max_pending = 4096 })
      (climb_served m kind)
