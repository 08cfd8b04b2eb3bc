-- ===== src/Bench/Tables.antt =====
-- bench/cmd/bench/scenarios.go: the sections that measure throughput, latency and CPU.
use elodin.Common.{
  ℕ, true, ◌&&◌, List, [], ◌∷◌, ◌++◌, map, leb, ◌-◌, if◌then◌else◌, Bytes, codes, ok, err,
}
use elodin.Text.{str_eq}
use elodin.Bench.Load.{Report, Run, label}
use elodin.Bench.Servers.{Server}
use elodin.Bench.Competitors.{udp, tcp, dot, doh1, doh2}
use elodin.Bench.Acts.{
  Act, pure, fail_with, ◌>>=◌, ◌>>◌, attempt, of_result, wrap, for_each, within,
}
use elodin.Bench.Runs.{LoadOpts, asks}
use elodin.Bench.Machine.{Machine, start, release, deferred, measure, expect, measure_as, serves}
use elodin.Bench.Cells.{
  text, server, count, qps, p50, p99, per_client, errors, cpu, mib, dash, Line, row, line, Section,
}

abbrev pub list_rules : ℕ
list_rules = 250000

abbrev pub noerror : Bytes
noerror = codes "noerror"

abbrev pub nxdomain : Bytes
nxdomain = codes "nxdomain"

-- `strings.ToUpper` of an ASCII text
abbrev to_upper : Bytes → Bytes
to_upper s = map (λ c. if leb b'a' c && leb c b'z' then c - 32 else c) s

-- `row`
unfoldable pub workload_row : Bytes → Run → List Line
workload_row name r = line (text name ∷ qps r.0 ∷ p50 r.0 ∷ p99 r.0 ∷ mib r.1.peak_rss ∷ [])

-- a row of `workloads` whose answers have to be of a kind, with the words of its error
unfoldable pub expected_row : Bytes → Bytes → Bytes → Machine → Server → LoadOpts → Act (List Line)
expected_row name words want m s o = measure m s o >>= λ r.
    of_result (wrap (words ∷ []) (expect want r)) >> pure (workload_row name r)

unfoldable pub plain_row : Bytes → Machine → Server → LoadOpts → Act (List Line)
plain_row name m s o = measure m s o >>= λ r. pure (workload_row name r)

-- `workloads` on its server
unfoldable pub workload_rows : Machine → Server → Act Section
workload_rows m s = do
  hits ← plain_row (codes "cache hits") m s (asks udp 200)
  blocked ←
      expected_row (codes "blocked") (codes "blocked row") nxdomain m s
        (record (asks udp 200) { qname = codes "blocked.bench.test" })
  rewritten ←
      expected_row (codes "rewritten") (codes "rewritten row") noerror m s
        (record (asks udp 200) { qname = codes "rewritten.bench.test" })
  light ← plain_row (codes "light mixed load (20 in flight)") m s (asks udp 20)
  misses ←
      expected_row (codes "sustained cache misses") (codes "cache-miss row") noerror m s
        (record (asks udp 128) { qmode = codes "unique" })
  pure (record {
    title = codes "Workloads";
    body = hits ++ (blocked ++ (rewritten ++ (light ++ misses)));
  })

unfoldable pub workloads : Machine → Act Section
workloads m =
    start m (record (serves (codes "workloads") []) { cache = true; block_rules = list_rules })
    >>= λ s. deferred s (workload_rows m s)

-- a row of `transports`
unfoldable pub transport_row : Bytes → Report → List Line
transport_row name r =
    line (text name ∷ count r.clients ∷ qps r ∷ p50 r ∷ p99 r ∷ per_client r ∷ errors r ∷ [])

unfoldable pub transport_rows : Machine → Server → Act Section
unfolding label
transport_rows m s = do
  rows ←
      for_each (λ t. measure m s (asks t 100) >>= λ r. pure (transport_row (label t) r.0))
        (udp ∷ tcp ∷ dot ∷ doh1 ∷ doh2 ∷ [])
  r ← measure m s (asks tcp 500)
  pure (record {
    title = codes "Transports, one connection per client";
    body = rows ++ transport_row (codes "TCP") r.0;
  })

unfoldable pub transports : Machine → Act Section
transports m = start m (record (serves (codes "transports") []) { cache = true }) >>= λ s.
    deferred s (transport_rows m s)

unfoldable pub h1h2_rows : Machine → Server → Act Section
unfolding label
h1h2_rows m s = do
  rows ←
      for_each
        (λ t. measure m s (record (asks t 10) { concurrency = 8; qmode = codes "unique" }) >>= λ r.
          pure (line (text (label t) ∷ qps r.0 ∷ p50 r.0 ∷ p99 r.0 ∷ [])))
        (doh1 ∷ doh2 ∷ [])
  pure (record { title = codes "HTTP/1.1 against HTTP/2 under concurrency"; body = rows })

-- `h1VersusH2`
unfoldable pub h1_versus_h2 : Machine → Act Section
h1_versus_h2 m =
    start m (record (serves (codes "h1h2") []) { cache = true }) >>= λ s. deferred s (h1h2_rows m s)

-- the loop of `cpuPerQuery` over the transports that are left, which stops the server at its end
unfoldable pub cpu_loop : Machine → Bytes → Server → List Bytes → Act (List Line)
unfolding str_eq label
cpu_loop m kind s [] = release s >> pure []
cpu_loop m kind s (t ∷ ts) =
    let rest = cpu_loop m kind s ts in
    let passed = rest >>= λ rows. pure (row (server kind ∷ text (label t) ∷ dash ∷ []) ∷ rows) in
    let measured = attempt (measure m s (asks t 100)) >>= λ result.
    elim result as (λ _. Act (List Line)) [
      | err e ↦ release s >> fail_with (within (kind ∷ t ∷ []) e)
      | ok r ↦ rest >>= λ rows. pure (row (server kind ∷ text (label t) ∷ cpu r.1 r.0 ∷ []) ∷ rows)
    ] in
    if str_eq kind (codes "unbound") && str_eq t doh1 then passed else measured

unfoldable pub cpu_per_kind : Machine → Bytes → Act (List Line)
cpu_per_kind m kind = start m (record (serves (codes "cpu") kind) { cache = true }) >>= λ s.
    cpu_loop m kind s (tcp ∷ udp ∷ dot ∷ doh1 ∷ doh2 ∷ [])

-- `cpuPerQuery`
unfoldable pub cpu_section : Machine → Act Section
cpu_section m = for_each (cpu_per_kind m) m.kinds >>= λ rows.
    pure (record { title = codes "CPU per query"; body = rows })

-- the loop of `latency` over the transports that are left, which stops the server at its end
unfoldable pub latency_loop : Machine → Bytes → Server → List Bytes → Act (List Line)
unfolding label
latency_loop m kind s [] = release s >> pure []
latency_loop m kind s (t ∷ ts) =
    let rest = latency_loop m kind s ts in
    attempt (measure_as noerror m s (asks t 100)) >>= λ result.
    elim result as (λ _. Act (List Line)) [
      | err e ↦ release s >> fail_with (within (kind ∷ t ∷ []) e)
      | ok r ↦ rest >>= λ rows.
          pure (row (server kind ∷ text (label t) ∷ qps r.0 ∷ p50 r.0 ∷ p99 r.0 ∷ []) ∷ rows)
    ]

unfoldable pub latency_per_kind : Machine → Bytes → Act (List Line)
latency_per_kind m kind = start m (record (serves (codes "latency") kind) { cache = true }) >>= λ s.
    latency_loop m kind s (udp ∷ tcp ∷ [])

unfoldable pub latency : Machine → Act Section
latency m = for_each (latency_per_kind m) m.kinds >>= λ rows.
    pure (record { title = codes "Cache-hit latency"; body = rows })

unfoldable pub handshake_of : Machine → Bytes → Act (List Line)
handshake_of m kind = do
  s ← start m (record (serves (codes "handshake-" ++ kind) []) { cache = true; cert_kind = kind })
  result ← attempt (measure m s (asks (codes "handshake") 16))
  release s
  r ← of_result result
  pure (line (text (to_upper kind) ∷ qps r.0 ∷ cpu r.1 r.0 ∷ p50 r.0 ∷ []))

unfoldable pub handshakes : Machine → Act Section
handshakes m = for_each (handshake_of m) (codes "ecdsa" ∷ codes "rsa" ∷ []) >>= λ rows.
    pure (record { title = codes "Fresh TLS handshakes"; body = rows })
