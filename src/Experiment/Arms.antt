-- ===== src/Experiment/Arms.antt =====
-- bench/cmd/rrlexp: how an arm is run, with its upstreams and its server (runArm in main.go, the outage
-- of arms_upstream.go, startServer in server.go).
--
-- `live` is the list of what was started and not stopped: mocks and processes, by a number each. What
-- the clients and the readings bring is input, and so are the sockets and the processes that the system
-- grants. A client that cannot start ends the program, which calls nothing that was deferred: its mocks
-- end with it, and the server it started does not. The readiness of a server is waited for as in the runner, from an address of its own.
use elodin.Common.{
  ℕ, Bool, not, Option, none, some, List, [], ◌∷◌, ◌++◌, ◌==◌, if◌then◌else◌, Bytes, codes, Result,
  ok, err, is_none,
}
use elodin.UnitEnv.{check}
use elodin.UnitEnv
use elodin.Text.{decimal}
use elodin.Bench.Servers.{Refusal, Probe, wait_ready, stop}
use elodin.Experiment.Client.{Stats}
use elodin.Experiment.Mock.{Mock, fail, restore}
use elodin.Experiment.Matrix.{FailSpec, Arm, Row}
use elodin.Experiment.Recovery.{Sample}

pub data ArmError : Type 0 where
  no_mock no_port no_certificate not_written not_started : ArmError
  not_up : Refusal → ArmError
  other_environment : UnitEnv.Error → ArmError
  not_held not_back : ArmError
  -- a client could not start, and ended the program
  exited : ArmError

-- the mocks of an outage, the failing one and the steady one, if there is one
abbrev pub Mocks : Type 0
Mocks = ℕ × Option ℕ

unfoldable pub stop_outage : Mocks → List ℕ → List ℕ
unfolding stop
stop_outage (failing, none) live = stop failing live
stop_outage (failing, some steady) live = stop steady (stop failing live)

-- `startOutage`, where `startMock` gives these mocks or none
unfoldable pub start_outage :
    FailSpec → Option ℕ → Option ℕ → List ℕ → Result ArmError Mocks × List ℕ
unfolding stop
start_outage f none second live = (err no_mock, live)
start_outage f (some failing) second live =
    let alone : Result ArmError Mocks × List ℕ = (ok (failing, none), failing ∷ live) in
    let both = elim second as (λ _. Result ArmError Mocks × List ℕ) [
      | none ↦ (err no_mock, stop failing (failing ∷ live))
      | some steady ↦ (ok (failing, some steady), steady ∷ failing ∷ live)
    ] in
    if f.alone then alone else both

-- `schedule`: the error is that of `fail`, or else that of `restore`; the sockets are granted or not
unfoldable pub schedule : FailSpec → Mock → Bool × Bool → Bool × Bool → Mock × Option ArmError
unfolding fail restore
schedule f m (udp, tcp) (udp', tcp') =
    let (failed, held) = fail m f.mode udp tcp in
    let (back, returned) = restore failed udp' tcp' in
    (back, if not held then some not_held else if not returned then some not_back else none)

-- `upstreamBlock`, of members with a name, a host and a port
unfoldable pub member_lines : List (Bytes × Bytes × Bytes) → Bytes
member_lines [] = []
member_lines ((name, host, port) ∷ members) =
    codes "    - name: "
    ++ name
    ++ codes "\n      type: udp\n      address: "
    ++ host
    ++ codes "\n      port: "
    ++ port
    ++ codes "\n"
    ++ member_lines members

unfoldable pub upstream_block : Bytes → ℕ → List (Bytes × Bytes × Bytes) → Bytes
unfolding member_lines decimal
upstream_block strategy attempts members =
    codes "upstream:\n  strategy: "
    ++ strategy
    ++ codes "\n  timeout: 5s\n"
    ++ (if not (attempts == 0) then codes "  attempts: " ++ decimal attempts ++ codes "\n" else [])
    ++ codes "  bootstrap: [127.0.0.1]\n  servers:\n"
    ++ member_lines members

-- what the start of a server finds
pub record Boot : Type 0 where
  pub ports : Bool
  pub certificate : Bool
  pub config_written : Bool
  pub process : Option ℕ
  pub probes : List Probe
  pub environ : Bytes

-- the end of `startServer`: a server that does not get ready, or has not the unit's environment, is
-- stopped
unfoldable pub come_up :
    ℕ
    → Result Refusal (Unit {0})
    → Result UnitEnv.Error (Unit {0})
    → List ℕ
    → Result ArmError ℕ × List ℕ
unfolding stop
come_up pid (err e) checked live = (err (not_up e), stop pid live)
come_up pid (ok _) (err e) live = (err (other_environment e), stop pid live)
come_up pid (ok _) (ok _) live = (ok pid, live)

unfoldable pub boot_process :
    List Bytes → Option ℕ → List Probe → Bytes → List ℕ → Result ArmError ℕ × List ℕ
unfolding come_up wait_ready check
boot_process unit none probes environ live = (err not_started, live)
boot_process unit (some pid) probes environ live =
    come_up pid (wait_ready probes none) (check environ unit) (pid ∷ live)

unfoldable pub start_server : List Bytes → Boot → List ℕ → Result ArmError ℕ × List ℕ
unfolding boot_process
start_server unit b live =
    let booted = boot_process unit b.process b.probes b.environ live in
    if not b.ports
    then (err no_port, live)
    else if not b.certificate
    then (err no_certificate, live)
    else if not b.config_written
    then (err not_written, live)
    else booted

-- what a measured window brings: whether every client starts, in the warm-up too, the figures of the clients, the readings and the sampler, what the
-- schedule of an outage gives, and the server's counters at the end
pub record Window : Type 0 where
  pub clients_start : Bool
  pub victim : Stats
  pub attacker : Stats
  pub elapsed : ℕ
  pub cpu : ℕ
  pub peak_rss : ℕ
  pub samples : List Sample
  pub outage : ℕ × ℕ × Option ArmError
  pub srv : List (Bytes × ℕ)

-- `r.downAt, r.upAt, err = o.wait()`, of an arm with an outage
unfoldable pub wait_outage : Arm → Window → ℕ × ℕ × Option ArmError
wait_outage a w = if is_none a.fail then (0, 0, none) else w.outage

-- the row of an arm whose window ran
unfoldable pub row_of : Arm → Window → ℕ × ℕ × Option ArmError → Result ArmError Row
row_of a w (down_at, up_at, some e) = err e
row_of a w (down_at, up_at, none) = ok (record {
  arm = a;
  victim = w.victim;
  attacker = elim a.attacker [ none ↦ none | some c ↦ some w.attacker ];
  elapsed = w.elapsed;
  cpu = w.cpu;
  peak_rss = w.peak_rss;
  srv = w.srv;
  samples = w.samples;
  down_at = down_at;
  up_at = up_at;
})

-- `runArm` from the server on: the server is stopped whether the window gives a row or not, unless a client
-- ends the program
unfoldable pub run_server : List Bytes → Arm → Boot → Window → List ℕ → Result ArmError Row × List ℕ
unfolding start_server row_of wait_outage stop
run_server unit a b w live =
    let (started, up) = start_server unit b live in
    elim started as (λ _. Result ArmError Row × List ℕ) [
      | err e ↦ (err e, up)
      | ok pid ↦
          if not w.clients_start
          then (err exited, up)
          else (row_of a w (wait_outage a w), stop pid up)
    ]

-- `runArm`: the mocks of an outage are stopped last, or end with the program
unfoldable pub run_arm :
    List Bytes → Arm → Option ℕ × Option ℕ → Boot → Window → List ℕ → Result ArmError Row × List ℕ
unfolding run_server start_outage stop_outage
run_arm unit a mocks b w live = elim a.fail as (λ _. Result ArmError Row × List ℕ) [
  | none ↦ run_server unit a b w live
  | some f ↦
      let (started, up) = start_outage f mocks.0 mocks.1 live in
      elim started as (λ _. Result ArmError Row × List ℕ) [
        | err e ↦ (err e, up)
        | ok o ↦ let (result, left) = run_server unit a b w up in (result, stop_outage o left)
      ]
]
