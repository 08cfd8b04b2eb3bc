-- ===== src/Examples/Matrix.antt =====
-- The matrix of the experiment at concrete inputs.
use elodin.Common.{
  ◌≡◌, refl, Bool, true, false, not, Option, none, some, List, [], ◌∷◌, Bytes, codes, Result, ok,
  err, ◌>>=◌,
}
use elodin.Text.{str_eq}
use elodin.UnitEnv.Started.{environ_of}
use elodin.Bench.Servers.{not_dialled, came_back}
use elodin.Experiment.Client.{no_stats}
use elodin.Experiment.Mock.{mock_refused}
use elodin.Experiment.Matrix.{Arm, Row, unusable, run_matrix}
use elodin.Experiment.Selected.{run_each, runs, skips, run_matrix-runs}
use elodin.Experiment.Tables.{
  doh_table, doh_cells, flood_table, flood_cells, conn_table, conn_cells, handshake_table,
  handshake_cells,
}
use elodin.Experiment.Headings.{shown, tables-shown}
use elodin.Experiment.Arms.{ArmError, no_port, Boot, Window, run_arm}
use elodin.Experiment.Releases.{IsReleased, run_arm-IsReleased}
use elodin.Examples.Clients.{spec, noerror}

abbrev base : Arm
base = record {
  name = codes "other-prefix/limiter-on";
  question = codes "what a client of another prefix gets";
  dur = 0;
  sample = 0;
  fail = none;
  listen = [];
  limiter = true;
  rps = 500;
  slip = 2;
  max_conns = 0;
  per_prefix = 0;
  client_timeout = 0;
  max_pending = 0;
  readers = 0;
  cache_entries = 0;
  attacker = some spec;
  victim = record spec { src = codes "127.1.0.1" };
}

-- an arm over IPv6, and one with an upstream that fails and no flood
abbrev over_v6 : Arm
over_v6 = record base { name = codes "v6/limiter-on"; listen = codes "::1" }

abbrev failing : Arm
failing = record base {
  name = codes "upstream-fail/refused";
  attacker = none;
  fail = some (record {
    mode = mock_refused;
    strategy = codes "failover";
    alone = false;
    stale = false;
    ttl = 300;
  });
}

-- a machine with IPv4 alone
abbrev parse_ip : Bytes → Option Bytes
parse_ip addr = none

abbrev bindable : Bytes → Bool
bindable addr = not (str_eq addr (codes "::1"))

abbrev row_for : Arm → Row
row_for a = record {
  arm = a;
  victim = no_stats;
  attacker = elim a.attacker [ none ↦ none | some c ↦ some no_stats ];
  elapsed = 8;
  cpu = 4;
  peak_rss = 100;
  srv = [];
  samples = [];
  down_at = 0;
  up_at = 0;
}

-- only the arm with an outage fails
abbrev run_one : Arm → Result ArmError Row
run_one a = elim a.fail [ none ↦ ok (row_for a) | some f ↦ err no_port ]

run_matrix-runs_example :
    run_matrix (codes "limiter") parse_ip bindable run_one (base ∷ over_v6 ∷ failing ∷ []) ≡ (
      let why_not = unusable parse_ip bindable in
      let arms = base ∷ over_v6 ∷ failing ∷ [] in
      run_each run_one (runs (codes "limiter") why_not arms) >>= λ rows.
      ok (rows, skips (codes "limiter") why_not arms))
run_matrix-runs_example =
    run_matrix-runs (codes "limiter") parse_ip bindable run_one (base ∷ over_v6 ∷ failing ∷ [])

abbrev rows : List Row
rows = row_for base ∷ row_for failing ∷ []

tables-shown_example :
    (doh_table rows ≡ shown (doh_cells rows))
    × (flood_table rows ≡ shown (flood_cells rows))
    × (conn_table rows ≡ shown (conn_cells rows))
    × (handshake_table rows ≡ shown (handshake_cells rows))
tables-shown_example = tables-shown rows ((refl, refl), ((refl, refl), tt))

abbrev unit : List Bytes
unit = codes "MALLOC_ARENA_MAX=2" ∷ []

abbrev boot : Boot
boot = record {
  ports = true;
  certificate = true;
  config_written = true;
  process = some 77;
  probes = not_dialled ∷ came_back noerror ∷ [];
  environ = environ_of unit;
}

abbrev window : Window
window = record {
  clients_start = true;
  victim = no_stats;
  attacker = no_stats;
  elapsed = 8;
  cpu = 4;
  peak_rss = 100;
  samples = [];
  outage = (3, 18, none);
  srv = [];
}

run_arm-IsReleased_example :
    IsReleased boot window failing
      (5 ∷ [])
      (run_arm unit failing (some 70, some 71) boot window (5 ∷ []))
run_arm-IsReleased_example = run_arm-IsReleased unit failing (some 70, some 71) boot window (5 ∷ [])

-- a client that cannot start leaves the server
orphaned :
    (run_arm unit failing
      (some 70, some 71)
      boot
      (record window { clients_start = false })
      (5 ∷ [])).1
    ≡ 77 ∷ 5 ∷ []
unfolding run_arm elodin.DnsWire.parse_reply elodin.DnsWire.u16_at elodin.Text.split str_eq
orphaned = refl
