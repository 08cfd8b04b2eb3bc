-- ===== src/Examples/Runner.antt =====
-- The bench runner at concrete inputs.
use elodin.Common.{
  ℕ, ◌+◌, ◌≤◌, ◌<◌, ◌≡◌, refl, Bool, true, false, Option, none, some, List, [], ◌∷◌, Bytes, codes,
  get_or, map, leb, ltb, count_if, Result, ok, err, All, if◌then◌else◌, ◌||◌, ◌==◌, ◌*◌, ◌-◌, any,
}
use Prim.Native.String.{String}
use elodin.Text.{
  str_eq, split, trim_space, digits, decimal, mem_byte, trim_left, trim_right, keep_byte, fields,
  fields_func, fields_loop,
}
use elodin.DnsWire.{parse_reply, u16_at}
use elodin.ProcStat.{parse_int}
use elodin.UnitEnv.{shipped}
use elodin.UnitEnv.Started.{environ_of, HasNoNul}
use elodin.Bench.Survey.{Error, Verdict, no_figures, count_verdicts, not_read}
use elodin.Bench.Surveyed.{Tallied, Sums, count_verdicts-counts}
use elodin.Bench.Load.{Run, no_run, repeats, load, thousands, commas}
use elodin.Bench.Medians.{qps_of, load-median}
use elodin.Bench.Ladder.{Failure, load_failed, Offered, Step, climb}
use elodin.Bench.Climbing.{last_of, AllCarried, EndsAt, climb-ends}
use elodin.Bench.Competitors.{Harness, add_servers, all_servers, find_kind, competitors}
use elodin.Bench.Compared.{is_known, asked_for, Adds, add_servers-Adds}
use elodin.Bench.Servers.{
  Attempt, Ports, not_dialled, came_back, no_port, start_rounds, start_server, prepare, free_port,
  upstream_of, check_row, of_config,
}
use elodin.Bench.Options.{ServerOpts, with_defaults}
use elodin.Bench.Wrappers.{server_pid, only_child, is_wrapper}
use elodin.Bench.Lifetimes.{IsStarted, start_server-IsStarted}
use elodin.Bench.Startup.{is_reply, server_of, start_rounds-up}
use elodin.Examples.Clients.{noerror}

-- a name both sides resolve, one they differ on, a broken one that is served, one that is not answered
abbrev verdicts : List Verdict
verdicts =
    verdict "a.test" false 0 true none 0 true
    ∷ verdict "b.test" false 0 false none 0 true
    ∷ verdict "c.test" true 0 false none 2 false
    ∷ verdict "d.test" false 0 false (some not_read) 0 false
    ∷ []
  where
    verdict : String → Bool → ℕ → Bool → Option Error → ℕ → Bool → Verdict
    verdict name bogus rcode ad failed rcode' ad' = record {
      domain = codes name;
      want_bogus = bogus;
      elodin_rcode = rcode;
      elodin_ad = ad;
      elodin_err = failed;
      ref_rcode = rcode';
      ref_ad = ad';
      ref_err = none;
    }

count_verdicts-counts_example :
    Tallied verdicts (count_verdicts verdicts no_figures)
    × Sums verdicts no_figures (count_verdicts verdicts no_figures)
count_verdicts-counts_example = count_verdicts-counts verdicts

-- a run that answers so many at a throughput
abbrev pub run_at : ℕ → ℕ → ℕ → Run
run_at answered errors qps = (
  record no_run.0 {
    answered = answered;
    errors = errors;
    rcodes = (codes "noerror", answered) ∷ [];
    qps = qps;
  },
  no_run.1,
)

abbrev runs : List Run
runs = run_at 900 0 90000 ∷ run_at 700 0 70000 ∷ run_at 800 0 80000 ∷ []

abbrev third_runs : ℕ → Result Failure Run
third_runs i = ok (get_or runs i no_run)

load-median_example :
    (med : Run) × (load 3 0 third_runs ≡ ok med)
    × ((i : ℕ) × (i < 3) × (med.0 ≡ (get_or runs i no_run).0))
    × (1 < count_if (λ v. leb v med.0.qps) (map qps_of runs))
    × (count_if (λ v. ltb v med.0.qps) (map qps_of runs) ≤ 1)
unfolding repeats
load-median_example = load-median 3 0 third_runs runs refl (λ i h. refl)

-- every query is answered up to 5000 a second, and none of the others above
abbrev load_at : Offered → Result Failure Run
load_at o =
    if leb o.rate 5000
    then ok (run_at o.rate 0 (1000 * o.rate))
    else if leb o.rate 25000
    then ok (run_at 5000 (o.rate - 5000) 5000000)
    else err load_failed

abbrev best : Step
best = record { rate = 2000; run = run_at 2000 0 2000000 }

climb-ends_example :
    (steps : List Step) × (rest : List ℕ) × AllCarried load_at
      (5000 ∷ 10000 ∷ 50000 ∷ [])
      steps
      rest
    × EndsAt load_at (last_of best steps) rest (climb load_at best (5000 ∷ 10000 ∷ 50000 ∷ []))
climb-ends_example = climb-ends load_at best (5000 ∷ 10000 ∷ 50000 ∷ [])

thousands_of : thousands 1234567 ≡ codes "1,234,567"
unfolding thousands commas decimal digits
thousands_of = refl

abbrev pub unit : List Bytes
unit = codes "MALLOC_ARENA_MAX=2" ∷ []

abbrev pub inherited : List Bytes
inherited = codes "HOME=/root" ∷ []

unit_no_nul : All HasNoNul unit
unfolding mem_byte
unit_no_nul = (refl, tt)

inherited_no_nul : All HasNoNul inherited
unfolding mem_byte
inherited_no_nul = (refl, tt)

abbrev opts : ServerOpts
opts = record {
  name = codes "workloads";
  kind = [];
  loops = 2;
  max_pending = 0;
  max_connections = 0;
  client_timeout = 0;
  cpus = codes "0-1";
  cache = true;
  cache_entries = 0;
  block_rules = 0;
  cert_kind = [];
  log_queries = false;
  log_level = [];
  no_upstream = false;
  dnssec = false;
  upstream_addr = [];
  attempts = 0;
}

abbrev elodin_opts : ServerOpts
elodin_opts = record opts { kind = codes "elodin" }

-- an attempt whose server answers the second probe
abbrev pub attempt : Attempt
attempt = record {
  granted = some 4001 ∷ some 4002 ∷ some 4003 ∷ [];
  addr = λ p. codes "127.0.0.1";
  configure = λ o p. some (codes "elodin" ∷ []);
  stderr_made = true;
  process = some 77;
  probes = not_dialled ∷ came_back noerror ∷ [];
}

-- one that finds no port, and one whose process answers nothing
abbrev portless : Attempt
portless = record attempt { granted = [] }

abbrev pub silent : Attempt
silent = record attempt { process = some 76; probes = [] }

-- taskset is process 77, and the server its child
abbrev pub running : ℕ → ℕ × Bytes
running p = (p + 1, environ_of (shipped unit inherited))

start_server-IsStarted_example :
    IsStarted (str_eq opts.kind (codes "elodin") || str_eq opts.kind []) unit running (5 ∷ []) (
      start_server opts
        (codes "127.0.0.1:53")
        unit
        inherited
        running
        (portless, silent, attempt)
        (5 ∷ []))
start_server-IsStarted_example =
    start_server-IsStarted opts (codes "127.0.0.1:53") unit inherited running
      (portless, silent, attempt) (5 ∷ [])

abbrev prepared : Ports × List Bytes
prepared = (
  record { dns = 4001; dot = 4002; doh = 4003; upstream = codes "127.0.0.1:53" },
  codes "taskset" ∷ codes "-c" ∷ codes "0-1" ∷ codes "elodin" ∷ [],
)

opts_prepared : prepare elodin_opts (codes "127.0.0.1:53") attempt ≡ ok prepared
unfolding prepare with_defaults free_port upstream_of check_row of_config str_eq
opts_prepared = refl

is_elodin : str_eq elodin_opts.kind (codes "elodin") ≡ true
unfolding str_eq
is_elodin = refl

answered : any is_reply attempt.probes ≡ true
unfolding parse_reply u16_at
answered = refl

start_rounds-up_example :
    start_rounds elodin_opts (codes "127.0.0.1:53") unit inherited running (attempt ∷ []) no_port []
    ≡ (ok (record (server_of true unit inherited prepared 77) { pid = 78 }), 77 ∷ [])
start_rounds-up_example =
    start_rounds-up elodin_opts (codes "127.0.0.1:53") unit inherited running attempt [] no_port []
      prepared 77 is_elodin opts_prepared refl refl answered refl unit_no_nul inherited_no_nul

-- process 1 is env, whose child 2 is the server
abbrev comm : ℕ → Option Bytes
comm p = if p == 1 then some (codes "env") else some (codes "elodin")

abbrev children : ℕ → Option Bytes
children p = if p == 1 then some (codes "0 ") else none

server_found : server_pid comm children 3 1 ≡ some 0
unfolding server_pid is_wrapper only_child trim_space trim_left trim_right keep_byte mem_byte str_eq
    fields fields_func fields_loop parse_int
server_found = refl

abbrev names : Bytes
names = codes "elodin, unbound,,bind"

abbrev find : Bytes → Option Bytes
find bin = some bin

abbrev harness : Harness
harness = record { unbound = none; bins = []; kinds = []; skipped = [] }

names_known :
    All
      (λ k. is_known (trim_space k) ≡ true)
      (split (if str_eq names (codes "all") then all_servers else names) b',')
unfolding str_eq split trim_space trim_left trim_right keep_byte mem_byte find_kind competitors
names_known = (refl, (refl, (refl, (refl, tt))))

add_servers-Adds_example :
    Adds find none
      (asked_for (split (if str_eq names (codes "all") then all_servers else names) b','))
      harness
      (add_servers (codes "compare") find none names harness)
add_servers-Adds_example = add_servers-Adds find none names harness names_known
