-- ===== src/Bench/Machine.antt =====
-- bench/cmd/bench: startServer, startMock, load and once, as the sections of a run use them.
--
-- What the machine does is input, and may depend on the time. The resident memory of a server, the space
-- that is free and what waitBlocked polls are among it.
use elodin.Common.{ℕ, ◌+◌, Option, none, some, List, [], ◌∷◌, Bool, false, Bytes, Result, ok, err}
use elodin.Bench.Load.{Report, Run, load, expect_rcode}
use elodin.Bench.Ladder.{Poll}
use elodin.Bench.Options.{ServerOpts}
use elodin.Bench.Servers.{StartError, Server, Attempt, start_server, stop}
use elodin.Bench.Runs.{LoadOpts, load_defaults, Outcome, load_once, Holding, once}
use elodin.Bench.Acts.{
  Trouble, start_failed, run_failed, unexpected, no_mock, World, Act, pure, ◌>>=◌, ◌>>◌, attempt,
  of_result, refit, reading,
}

-- what `syscall.Statfs` fills in, of what is used
pub record Statfs : Type 0 where
  pub bavail : ℕ
  pub frsize : ℕ
  pub bsize : ℕ

-- the flags, the servers to compare, and what the machine does at a time
pub record Machine : Type 0 where
  pub kinds : List Bytes
  pub repeat : ℕ
  pub duration : ℕ
  pub warmup : ℕ
  pub held : ℕ
  pub upstream_rtt : ℕ
  pub cpus : ℕ
  pub has_taskset : Bool
  pub time_text : ℕ → Bytes
  pub mock_addr : Bytes
  pub unit : List Bytes
  pub inherited : List Bytes
  pub running : ℕ → ℕ → ℕ × Bytes
  pub attempts : ℕ → ServerOpts → Attempt × Attempt × Attempt
  pub generator : ℕ → Server → LoadOpts → ℕ → Outcome
  pub once : ℕ → Server → Bytes → ℕ → Bytes → Holding
  pub mock : ℕ → ℕ → Option Bytes
  pub rss : ℕ → Server → ℕ
  pub disk : ℕ → Option Statfs
  pub log_size : ℕ → Server → ℕ
  pub polls : ℕ → Server → List Poll
  pub rmem : Option Bytes

unfoldable pub started : World → Result StartError Server × List ℕ → Result Trouble Server × World
started w (r, left) = (refit start_failed r, record w { time = w.time + 1; live = left })

-- `startServer`
unfoldable pub start : Machine → ServerOpts → Act Server
unfolding started start_server
start m o w =
    started w (
      start_server o m.mock_addr m.unit m.inherited (m.running w.time) (m.attempts w.time o) w.live)

-- `s.stop()`
unfoldable pub release : Server → Act (Unit {0})
unfolding stop
release s w = (ok tt, record w { live = stop s.process w.live })

-- `defer s.stop()` and the rest of the function
unfoldable pub deferred {ℓ} : {A : Type ℓ} → Server → Act A → Act A
deferred s a = attempt a >>= λ r. release s >> of_result r

-- `startMock`: a mock lives until the end of the program
unfoldable pub start_mock : Machine → ℕ → Act Bytes
start_mock m delay w = elim (m.mock w.time delay) as (λ _. Result Trouble Bytes × World) [
  | none ↦ (err no_mock, record w { time = w.time + 1 })
  | some addr ↦ (ok addr, record w { time = w.time + 1; mocks = w.time ∷ w.mocks })
]

-- `load`: what a run brings is the generator's, with the defaults of `loadOnce`
unfoldable pub measure : Machine → Server → LoadOpts → Act Run
unfolding load load_defaults
measure m s o =
    reading (λ t.
      refit run_failed
        (load m.repeat o.repeat (λ i. load_once (m.generator t s (load_defaults m.duration o) i))))
    >>= of_result

-- `expectRcode`
unfoldable pub expect : Bytes → Run → Result Trouble (Unit {0})
unfolding expect_rcode
expect want r = refit unexpected (expect_rcode r.0 want)

-- `load`, and the rcode that the row expects of it
unfoldable pub measure_as : Bytes → Machine → Server → LoadOpts → Act Run
measure_as want m s o = measure m s o >>= λ r. of_result (expect want r) >> pure r

-- `once`: the report, the memory with every connection held, and the peak
unfoldable pub ask_once : Machine → Server → Bytes → ℕ → Bytes → Act (Report × ℕ × ℕ)
ask_once m s transport n qmode =
    reading (λ t. refit run_failed (once (m.once t s transport n qmode))) >>= of_result

-- `s.rss()`
unfoldable pub rss : Machine → Server → Act ℕ
rss m s = reading (λ t. m.rss t s)

-- what a row asks of a server of a kind, likewise
abbrev pub serves : Bytes → Bytes → ServerOpts
serves name kind = record {
  name = name;
  kind = kind;
  loops = 0;
  max_pending = 0;
  max_connections = 0;
  client_timeout = 0;
  cpus = [];
  cache = false;
  cache_entries = 0;
  block_rules = 0;
  cert_kind = [];
  log_queries = false;
  log_level = [];
  no_upstream = false;
  dnssec = false;
  upstream_addr = [];
  attempts = 0;
}
