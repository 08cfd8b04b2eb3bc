-- ===== src/Bench/Scaling.antt =====
-- bench/cmd/bench/scenarios.go: the sections that load a server up to its bounds, and what its connections
-- and its waiting queries cost.
use elodin.Common.{
  ℕ, ◌+◌, min, ltb, true, ◌&&◌, ◌||◌, List, [], ◌∷◌, ◌++◌, if◌then◌else◌, Bytes, codes, Result, ok,
  err,
}
use elodin.Text.{str_eq, decimal}
use elodin.Bench.Load.{Run, label}
use elodin.Bench.Servers.{Server}
use elodin.Bench.Competitors.{udp, tcp, dot, doh2}
use elodin.Bench.Acts.{Trouble, Act, pure, ◌>>=◌, ◌>>◌, attempt, of_result, wrap, for_each}
use elodin.Bench.Runs.{asks}
use elodin.Bench.Machine.{
  Machine, start, release, start_mock, measure, expect, measure_as, ask_once, rss, serves,
}
use elodin.Bench.Tables.{noerror}
use elodin.Bench.Cells.{
  text, server, count, qps, p50, p99, errors, answered, mib, per_item, ceiling, Line, says, line,
  Section,
}

abbrev pub unique : Bytes
unique = codes "unique"

-- the two loads of a row of `loops`
unfoldable pub miss_and_hit : Machine → Server → Act (Run × Run)
miss_and_hit m s =
    measure_as noerror m s (record (asks udp 1000) { qmode = unique; cpus = codes "2-3" })
    >>= λ miss.
        measure m s (record (asks udp 1000) { cpus = codes "2-3" }) >>= λ hit. pure (miss, hit)

-- one row of `loops`
unfoldable pub loops_row : Machine → Bytes → ℕ → Act (List Line)
unfolding decimal
loops_row m kind loops = do
  s ← start m (record (serves (codes "loops") kind) {
    cache = true;
    loops = loops;
    max_pending = 4096;
    cpus = codes "0-1";
  })
  result ← attempt (miss_and_hit m s)
  release s
  r ← of_result (wrap (kind ∷ decimal loops ∷ []) result)
  pure (line (server kind ∷ count loops ∷ qps r.0.0 ∷ p99 r.0.0 ∷ qps r.1.0 ∷ p99 r.1.0 ∷ []))

abbrev pub loops_title : Bytes
loops_title = codes "Event loops on two cores"

unfoldable pub loops : Machine → Act Section
loops m =
    let measured =
      for_each (λ kind. for_each (loops_row m kind) (1 ∷ 2 ∷ min m.cpus 64 ∷ [])) m.kinds
      >>= λ rows. pure (record { title = loops_title; body = rows }) in
    if ltb m.cpus 4
    then pure (record {
      title = loops_title;
      body =
          says (codes "Skipped: needs four CPUs, two for the server and two for the generator.\n")
          ∷ [];
    })
    else if m.has_taskset
    then measured
    else pure (record {
      title = loops_title;
      body = says (codes "Skipped: needs taskset to pin the server and the generator.\n") ∷ [];
    })

-- `expectRcode` of a run that gave no error
abbrev pub expected : Result Trouble Run → Result Trouble Run
expected (err e) = err e
expected (ok r) = elim (expect noerror r) [ err e ↦ err e | ok _ ↦ ok r ]

-- one row of `misses`
unfoldable pub misses_row : Machine → ℕ → Bytes → Bytes → Act (List Line)
misses_row m rtt mock kind = do
  s ← start m (record (serves (codes "misses") kind) {
    cache = true;
    max_pending = 4096;
    upstream_addr = mock;
  })
  result ← attempt (measure m s (record (asks udp 2000) { qmode = unique }))
  release s
  r ← of_result (wrap (kind ∷ m.time_text rtt ∷ []) (expected result))
  pure (
      line (
        server kind
        ∷ text (m.time_text rtt)
        ∷ qps r.0
        ∷ p50 r.0
        ∷ p99 r.0
        ∷ errors r.0
        ∷ ceiling 2000 rtt
        ∷ []))

unfoldable pub misses_at : Machine → ℕ → Act (List Line)
misses_at m rtt = start_mock m rtt >>= λ mock. for_each (misses_row m rtt mock) m.kinds

unfoldable pub misses : Machine → Act Section
misses m = for_each (misses_at m) (20000000 ∷ 5000000 ∷ []) >>= λ rows.
    pure (record { title = codes "Cache misses against the upstream delay"; body = rows })

abbrev unbound_held : ℕ
unbound_held = 5000

-- one row of `connections`
unfoldable pub held_row : Machine → Bytes → Bytes → ℕ → Act (List Line)
unfolding decimal label
held_row m kind t n = do
  s ← start m (record (serves (codes "conns") kind) {
    cache = true;
    max_connections = n + 64;
    client_timeout = 120000000000;
  })
  before ← rss m s
  result ← attempt (ask_once m s t n (codes "fixed"))
  release s
  r ← of_result (wrap (kind ∷ t ∷ decimal n ∷ []) result)
  pure (
      line (
        server kind
        ∷ text (label t)
        ∷ count n
        ∷ answered r.0 n
        ∷ mib before
        ∷ mib r.1
        ∷ per_item r.1 before n
        ∷ []))

-- a row of `connections` that is not passed over
unfoldable pub connections_row : Machine → Bytes → Bytes → ℕ → Act (List Line)
unfolding str_eq
connections_row m kind t n =
    let row = held_row m kind t n in
    if ltb m.held n || str_eq kind (codes "unbound") && ltb unbound_held n then pure [] else row

unfoldable pub connections : Machine → Act Section
connections m =
    for_each
      (λ kind.
        for_each (λ t. for_each (connections_row m kind t) (1000 ∷ 5000 ∷ 20000 ∷ []))
          (tcp ∷ dot ∷ doh2 ∷ []))
      m.kinds
    >>= λ rows. pure (record { title = codes "Memory per idle connection"; body = rows })

-- one row of `inflight`
unfoldable pub inflight_row : Machine → Bytes → Bytes → ℕ → Act (List Line)
unfolding decimal
inflight_row m mock kind n = do
  s ←
      start m
        (record (serves (codes "inflight") kind) { max_pending = n + 256; upstream_addr = mock })
  idle ← rss m s
  result ← attempt (ask_once m s udp n unique)
  release s
  r ← of_result (wrap (kind ∷ decimal n ∷ []) result)
  pure (
      line (server kind ∷ count n ∷ answered r.0 n ∷ mib idle ∷ mib r.2 ∷ per_item r.2 idle n ∷ []))

unfoldable pub inflight : Machine → Act Section
inflight m = start_mock m 3000000000 >>= λ mock.
    for_each (λ kind. for_each (inflight_row m mock kind) (1000 ∷ 3000 ∷ [])) m.kinds >>= λ rows.
    pure (record { title = codes "Memory per query in flight"; body = rows })

-- one row of `shedding`
unfoldable pub shedding_row : Machine → ℕ → Act (List Line)
unfolding decimal
shedding_row m mp = do
  s ← start m (record (serves (codes "shed-" ++ decimal mp) []) { cache = true; max_pending = mp })
  result ← attempt (measure m s (record (asks udp 6000) { qmode = unique; duration = 20000000000 }))
  release s
  r ← of_result result
  pure (line (count mp ∷ ceiling mp m.upstream_rtt ∷ qps r.0 ∷ p50 r.0 ∷ p99 r.0 ∷ errors r.0 ∷ []))

unfoldable pub shedding : Machine → Act Section
shedding m = for_each (shedding_row m) (1024 ∷ 8192 ∷ []) >>= λ rows.
    pure (record { title = codes "Past capacity"; body = rows })
