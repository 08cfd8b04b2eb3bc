-- ===== src/Examples/Sections.antt =====
-- The sections of a run at a concrete machine.
use elodin.Common.{
  ℕ, ◌≡◌, refl, ◌==◌, true, some, [], ◌∷◌, length, if◌then◌else◌, Bytes, codes, Result, ok, err,
}
use elodin.Text.{str_eq, has_prefix, decimal, digits, split, cut}
use elodin.UnitEnv.{dropped}
use elodin.Bench.Load.{Report, load}
use elodin.ProcStat.{new_sampler, cpu_used}
use elodin.Bench.Servers.{start_server, start_rounds}
use elodin.DnsWire.{parse_reply, u16_at}
use elodin.Bench.Competitors.{udp, tcp}
use elodin.Bench.Acts.{Trouble, World, for_each, ◌>>=◌, pure, of_result, reading}
use elodin.Bench.Acts
use elodin.Bench.Runs.{load_defaults, load_once, once}
use elodin.Bench.Machine.{
  Machine, start, started, release, deferred, start_mock, ask_once, rss, measure_as, measure,
  expect,
}
use elodin.Bench.Tables.{latency, latency_per_kind, latency_loop}
use elodin.Bench.Scaling.{misses}
use elodin.Bench.Sections.{
  check_receive_buffer, held_run, held_cell, inflight_run, inflight_cell, waiting_row, compare_held,
  compare_tables, compared, compare, run_sections,
}
use elodin.Bench.Weighing.{idle_rss}
use elodin.Bench.Rivals.{
  fail_cell, cell_of, await_list, list_rss, fill, per_cache_entry, list_cells, memory_row, hit_cell,
  blocked_cell, hits_served, row_on, hits_row, miss_load, offered_load, climb_server, climb_served,
  climb_row,
}
use elodin.Bench.Leaving.{run_sections-releases}
use elodin.Bench.Titles.{titles}
use elodin.Bench.Reported.{chosen, IsReport, run_sections-IsReport}
use elodin.Bench.Noted.{NotesFailures, compare-NotesFailures}
use elodin.Bench.Cells.{Section, failed_lines}
use elodin.Bench.Giving.{Holds}
use elodin.Bench.Measured.{Rows, IsLatencyRow, IsMissesRow, pairs, measured-Rows}
use elodin.Examples.Runner.{unit, inherited, silent, attempt, running, run_at}

-- a name on the list is answered with NXDOMAIN
abbrev answering : Bytes → Report → Report
answering qname r =
    if str_eq qname (codes "blocked.bench.test")
    then record r { rcodes = (codes "nxdomain", r.answered) ∷ [] }
    else r

-- servers come up at their second attempt at every time but time 9; no list is ever loaded
abbrev box : Machine
box = record {
  kinds = codes "elodin" ∷ codes "unbound" ∷ [];
  repeat = 1;
  duration = 10000000000;
  warmup = 2000000000;
  held = 20000;
  upstream_rtt = 20000000;
  cpus = 4;
  has_taskset = true;
  time_text = decimal;
  mock_addr = codes "127.0.0.1:53";
  unit = unit;
  inherited = inherited;
  running = λ t. running;
  attempts = λ t o. if t == 9 then (silent, silent, silent) else (silent, attempt, attempt);
  generator = λ t s o i. record {
    succeeded = true;
    report = some (answering o.qname (run_at 1000 0 5000).0);
    sampler = new_sampler;
  };
  once = λ t s transport n qmode. record {
    piped = true;
    begun = true;
    report = some (run_at n 0 1000).0;
    held = 9000000;
    peak = 9500000;
    ended = true;
  };
  mock = λ t delay. some (codes "127.0.0.1:5301");
  rss = λ t s. 8000000;
  disk = λ t. some (record { bavail = 4000000; frsize = 4096; bsize = 4096 });
  log_size = λ t s. t;
  polls = λ t s. [];
  rmem = some (codes "1048576\n");
}

abbrev before : World
before = record { time = 0; live = 5 ∷ []; mocks = []; notes = [] }

run_sections-releases_example : (run_sections [] box before).1.live ≡ 5 ∷ []
run_sections-releases_example = run_sections-releases [] box before

run_sections-IsReport_example :
    IsReport box (codes "l") (chosen (codes "l") titles) (run_sections (codes "l") box before).0
run_sections-IsReport_example = run_sections-IsReport (codes "l") box before

compare-NotesFailures_example :
    Holds (NotesFailures (str_eq (codes "elodin"))) (compare box before).0
compare-NotesFailures_example = compare-NotesFailures (str_eq (codes "elodin")) box before

measured-Rows_example :
    Holds (λ s. Rows IsLatencyRow (pairs box.kinds (udp ∷ tcp ∷ [])) s.body) (latency box before).0
    × Holds
        (λ s. Rows (IsMissesRow box) (pairs (20000000 ∷ 5000000 ∷ []) box.kinds) s.body)
        (misses box before).0
measured-Rows_example = measured-Rows box before

-- the rows of a section, and the cells among them that read "failed"
abbrev rows_of : Result Trouble Section → ℕ × ℕ
rows_of (ok s) = (length s.body, failed_lines s.body)
rows_of (err e) = (0, 0)

latency_rows : rows_of (latency box before).0 ≡ (4, 0)
unfolding latency latency_per_kind latency_loop for_each ◌>>=◌ pure Acts.attempt of_result reading
    start started start_server start_rounds release measure_as measure expect load load_defaults
    load_once once new_sampler cpu_used str_eq decimal digits parse_reply u16_at split dropped
    has_prefix cut
latency_rows = refl

compare_rows : rows_of (compare box before).0 ≡ (9, 4)
unfolding compare compared compare_tables memory_row hits_row climb_row compare_held waiting_row
    held_cell inflight_cell held_run inflight_run fail_cell cell_of list_cells per_cache_entry fill
    idle_rss list_rss await_list hit_cell blocked_cell hits_served row_on climb_served climb_server
    offered_load miss_load deferred ask_once rss start_mock for_each ◌>>=◌ pure Acts.attempt
    of_result reading start started start_server start_rounds release measure_as measure expect load
    load_defaults load_once once new_sampler cpu_used str_eq decimal digits parse_reply u16_at split
    dropped has_prefix cut check_receive_buffer
compare_rows = refl
