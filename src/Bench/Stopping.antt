-- ===== src/Bench/Stopping.antt =====
-- The sections of scenarios.go stop the servers that they start.
use elodin.Common.{ℕ, List, [], ◌∷◌, Bytes, ◌&&◌, codes, arith}
use elodin.Text.{str_eq}
use elodin.Bench.Options.{ServerOpts}
use elodin.Bench.Servers.{Server}
use elodin.Bench.Competitors.{doh1}
use elodin.Bench.Runs.{LoadOpts, asks}
use elodin.Bench.Machine.{Machine, measure, measure_as, expect, ask_once, rss, start_mock}
use elodin.Bench.Tables.{
  expected_row, plain_row, workload_rows, workloads, transport_rows, transports, h1h2_rows,
  h1_versus_h2, cpu_loop, cpu_per_kind, cpu_section, latency_loop, latency_per_kind, latency,
  handshake_of, handshakes, noerror,
}
use elodin.Bench.Scaling.{miss_and_hit}
use elodin.Bench.Weighing.{idle_rss, fill_server, cache_filled_rss, memory}
use elodin.Bench.Keeping.{
  Keeps, Calm, Releases, >>=-Keeps, Calm→Keeps, pure-Keeps, of_result-Keeps, reading-Calm,
  release-Releases, deferred-Releases, for_each-Keeps, start-Keeps, run-Releases, row-Releases,
  error-Releases, stopped-Releases, either, either_way,
}

-- a reading whose error is returned
module _ (m : Machine) (s : Server) where
  pub measure-Keeps : (o : LoadOpts) → Keeps (measure m s o)
  unfolding measure
  measure-Keeps o = >>=-Keeps (Calm→Keeps (reading-Calm _)) of_result-Keeps

  pub measure_as-Keeps : (want : Bytes) (o : LoadOpts) → Keeps (measure_as want m s o)
  unfolding measure_as
  measure_as-Keeps want o =
      >>=-Keeps (measure-Keeps o)
        (λ r. >>=-Keeps (of_result-Keeps (expect want r)) (λ u. pure-Keeps r))

  pub ask_once-Keeps :
      (transport : Bytes) (n : ℕ) (qmode : Bytes) → Keeps (ask_once m s transport n qmode)
  unfolding ask_once
  ask_once-Keeps transport n qmode = >>=-Keeps (Calm→Keeps (reading-Calm _)) of_result-Keeps

  pub rss-Calm : Calm (rss m s)
  unfolding rss
  rss-Calm = reading-Calm _

  expected_row-Keeps :
      (name words want : Bytes) (o : LoadOpts) → Keeps (expected_row name words want m s o)
  unfolding expected_row
  expected_row-Keeps name words want o =
      >>=-Keeps (measure-Keeps o) (λ r. >>=-Keeps (of_result-Keeps _) (λ u. pure-Keeps _))

  plain_row-Keeps : (name : Bytes) (o : LoadOpts) → Keeps (plain_row name m s o)
  unfolding plain_row
  plain_row-Keeps name o = >>=-Keeps (measure-Keeps o) (λ r. pure-Keeps _)

  workload_rows-Keeps : Keeps (workload_rows m s)
  unfolding workload_rows
  workload_rows-Keeps = >>=-Keeps (plain_row-Keeps _ _) λ hits.
      >>=-Keeps (expected_row-Keeps _ _ _ _) λ blocked.
        >>=-Keeps (expected_row-Keeps _ _ _ _) λ rewritten.
          >>=-Keeps (plain_row-Keeps _ _)
            λ light. >>=-Keeps (expected_row-Keeps _ _ _ _) λ misses. pure-Keeps _

  transport_rows-Keeps : Keeps (transport_rows m s)
  unfolding transport_rows
  transport_rows-Keeps =
      >>=-Keeps (for_each-Keeps (λ t. >>=-Keeps (measure-Keeps _) (λ r. pure-Keeps _)) _)
        λ rows. >>=-Keeps (measure-Keeps _) λ r. pure-Keeps _

  h1h2_rows-Keeps : Keeps (h1h2_rows m s)
  unfolding h1h2_rows
  h1h2_rows-Keeps =
      >>=-Keeps (for_each-Keeps (λ t. >>=-Keeps (measure-Keeps _) (λ r. pure-Keeps _)) _)
        λ rows. pure-Keeps _

  fill_server-Keeps : (o : ServerOpts) → Keeps (fill_server m o s)
  unfolding fill_server
  fill_server-Keeps o =
      >>=-Keeps (Calm→Keeps rss-Calm) λ before. >>=-Keeps (measure-Keeps _) λ r. pure-Keeps _

  pub miss_and_hit-Keeps : Keeps (miss_and_hit m s)
  unfolding miss_and_hit
  miss_and_hit-Keeps =
      >>=-Keeps (measure_as-Keeps _ _) λ miss. >>=-Keeps (measure-Keeps _) λ hit. pure-Keeps _

module _ (m : Machine) where
  pub start_mock-Keeps : (delay : ℕ) → Keeps (start_mock m delay)
  unfolding start_mock
  start_mock-Keeps delay = record { keeps = λ w. ground arith }

  pub workloads-Keeps : Keeps (workloads m)
  unfolding workloads
  workloads-Keeps = start-Keeps m _ λ s. deferred-Releases (workload_rows-Keeps m s)

  pub transports-Keeps : Keeps (transports m)
  unfolding transports
  transports-Keeps = start-Keeps m _ λ s. deferred-Releases (transport_rows-Keeps m s)

  pub h1_versus_h2-Keeps : Keeps (h1_versus_h2 m)
  unfolding h1_versus_h2
  h1_versus_h2-Keeps = start-Keeps m _ λ s. deferred-Releases (h1h2_rows-Keeps m s)

  pub idle_rss-Keeps : (o : ServerOpts) → Keeps (idle_rss m o)
  unfolding idle_rss
  idle_rss-Keeps o = start-Keeps m o λ s. deferred-Releases (Calm→Keeps (rss-Calm m s))

  cache_filled_rss-Keeps : (o : ServerOpts) → Keeps (cache_filled_rss m o)
  unfolding cache_filled_rss
  cache_filled_rss-Keeps o = start-Keeps m o λ s. deferred-Releases (fill_server-Keeps m s o)

  pub memory-Keeps : Keeps (memory m)
  unfolding memory
  memory-Keeps = >>=-Keeps (idle_rss-Keeps _) λ idle. >>=-Keeps (idle_rss-Keeps _) λ with_list.
      >>=-Keeps (cache_filled_rss-Keeps _)
        λ small. >>=-Keeps (cache_filled_rss-Keeps _) λ big. pure-Keeps _

  cpu_loop-Releases :
      (kind : Bytes) (s : Server) (ts : List Bytes) → Releases s (cpu_loop m kind s ts)
  unfolding cpu_loop
  cpu_loop-Releases kind s [] = release-Releases λ u. pure-Keeps []
  cpu_loop-Releases kind s (t ∷ ts) =
      either_way (Releases s) (row-Releases _ (cpu_loop-Releases kind s ts))
        (run-Releases (measure-Keeps m s (asks t 100)) (
          either (Releases s) (λ e. error-Releases s _)
            (λ r. row-Releases _ (cpu_loop-Releases kind s ts))))
        (str_eq kind (codes "unbound") && str_eq t doh1)

  latency_loop-Releases :
      (kind : Bytes) (s : Server) (ts : List Bytes) → Releases s (latency_loop m kind s ts)
  unfolding latency_loop
  latency_loop-Releases kind s [] = release-Releases λ u. pure-Keeps []
  latency_loop-Releases kind s (t ∷ ts) = run-Releases (measure_as-Keeps m s noerror (asks t 100)) (
      either (Releases s) (λ e. error-Releases s _)
        (λ r. row-Releases _ (latency_loop-Releases kind s ts)))

  pub cpu_section-Keeps : Keeps (cpu_section m)
  unfolding cpu_section cpu_per_kind
  cpu_section-Keeps =
      >>=-Keeps (for_each-Keeps (λ kind. start-Keeps m _ λ s. cpu_loop-Releases kind s _) m.kinds)
        λ rows. pure-Keeps _

  pub latency-Keeps : Keeps (latency m)
  unfolding latency latency_per_kind
  latency-Keeps =
      >>=-Keeps
        (for_each-Keeps (λ kind. start-Keeps m _ λ s. latency_loop-Releases kind s _) m.kinds)
        λ rows. pure-Keeps _

  pub handshakes-Keeps : Keeps (handshakes m)
  unfolding handshakes handshake_of
  handshakes-Keeps =
      >>=-Keeps
        (for_each-Keeps
          (λ kind. start-Keeps m _ λ s.
            stopped-Releases (measure-Keeps m s _)
              λ r. >>=-Keeps (of_result-Keeps _) λ x. pure-Keeps _)
          _)
        λ rows. pure-Keeps _
