-- ===== src/Bench/Runs.antt =====
-- bench/cmd/bench/scenarios.go: one run of the generator (loadOnce and once).
--
-- What the generator prints is input, decoded, and so are what the sampler read and whether the command ran.
use elodin.Common.{
  ℕ, Bool, not, Option, none, some, List, [], ◌∷◌, ltb, ◌==◌, if◌then◌else◌, Bytes, codes, Result,
  ok, err,
}
use elodin.Text.{str_eq, decimal}
use elodin.ProcStat.{Sampler, cpu_used}
use elodin.Bench.Load.{Report, Run}

-- why a run of the generator gives nothing
pub data RunError : Type 0 where
  loadgen_failed not_parsed no_pipe not_run : RunError

pub record LoadOpts : Type 0 where
  pub transport : Bytes
  pub clients : ℕ
  pub concurrency : ℕ
  pub qmode : Bytes
  pub qname : Bytes
  pub rate : ℕ
  pub duration : ℕ
  pub cpus : Bytes
  pub repeat : ℕ

-- what a row asks of the generator, before it sets what it does not leave out
abbrev pub asks : Bytes → ℕ → LoadOpts
asks transport clients = record {
  transport = transport;
  clients = clients;
  concurrency = 0;
  qmode = [];
  qname = [];
  rate = 0;
  duration = 0;
  cpus = [];
  repeat = 0;
}

-- the defaults of `loadOnce`, where the flag gives `duration`
unfoldable pub load_defaults : ℕ → LoadOpts → LoadOpts
unfolding str_eq
load_defaults duration o = record o {
  clients = if o.clients == 0 then 100 else o.clients;
  concurrency = if o.concurrency == 0 then 1 else o.concurrency;
  qmode = if str_eq o.qmode [] then codes "fixed" else o.qmode;
  qname = if str_eq o.qname [] then codes "cached.bench.test" else o.qname;
  duration = if o.duration == 0 then duration else o.duration;
}

-- the command line of a run, where `time_text` is the text of a time
unfoldable pub load_argv : (ℕ → Bytes) → ℕ → Bytes → Bytes → Bytes → LoadOpts → List Bytes
unfolding decimal str_eq
load_argv time_text warmup loadgen addr ca o =
    let args =
      loadgen
      ∷ codes "-server"
      ∷ addr
      ∷ codes "-transport"
      ∷ o.transport
      ∷ codes "-clients"
      ∷ decimal o.clients
      ∷ codes "-concurrency"
      ∷ decimal o.concurrency
      ∷ codes "-qmode"
      ∷ o.qmode
      ∷ codes "-qname"
      ∷ o.qname
      ∷ codes "-duration"
      ∷ time_text o.duration
      ∷ codes "-warmup"
      ∷ time_text warmup
      ∷ codes "-ca"
      ∷ ca
      ∷ (if ltb 0 o.rate then codes "-rate" ∷ decimal o.rate ∷ [] else []) in
    if str_eq o.cpus [] then args else codes "taskset" ∷ codes "-c" ∷ o.cpus ∷ args

-- what a run of the generator brings: whether the command succeeded, its report if it can be parsed, and
-- the sampler once it was stopped
pub record Outcome : Type 0 where
  pub succeeded : Bool
  pub report : Option Report
  pub sampler : Sampler

-- the end of `loadOnce`
unfoldable pub load_once : Outcome → Result RunError Run
unfolding cpu_used
load_once o = if not o.succeeded then err loadgen_failed else elim o.report [
  | none ↦ err not_parsed
  | some r ↦ ok (
    r,
    record {
      peak_rss = o.sampler.peak_rss;
      cpu = cpu_used o.sampler;
      max_threads = o.sampler.max_threads;
      spread = none;
    },
  )
]

-- what the mode of one question brings: whether there are pipes and the command starts, the report, the
-- memory a second after it, the peak, and whether the command ends well
pub record Holding : Type 0 where
  pub piped : Bool
  pub begun : Bool
  pub report : Option Report
  pub held : ℕ
  pub peak : ℕ
  pub ended : Bool

-- `once`: the report, the memory with every connection held, and the peak
unfoldable pub once : Holding → Result RunError (Report × ℕ × ℕ)
once h = if not h.piped then err no_pipe else if not h.begun then err not_run else elim h.report [
  | none ↦ err not_parsed
  | some r ↦ if not h.ended then err loadgen_failed else ok (r, h.held, h.peak)
]
