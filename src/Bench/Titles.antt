-- ===== src/Bench/Titles.antt =====
-- The titles of the sections.
use elodin.Common.{◌≡◌, refl, ltb, List, [], ◌∷◌, Bytes, codes}
use elodin.Bench.Acts.{Act}
use elodin.Bench.Machine.{Machine}
use elodin.Bench.Tables.{
  workload_rows, workloads, transport_rows, transports, h1h2_rows, h1_versus_h2, cpu_section,
  latency, handshakes,
}
use elodin.Bench.Scaling.{loops, misses, connections, inflight, shedding}
use elodin.Bench.Weighing.{memory, logging_cost}
use elodin.Bench.Sections.{compare, compared, run_plan}
use elodin.Bench.Cells.{Section}
use elodin.Bench.Keeping.{either_way}
use elodin.Bench.Giving.{Gives, pure-Gives, then-Gives, deferred-Gives}

-- the sections by the names of their run_plan, in the order of a run
abbrev pub titles : List (Bytes × Bytes)
titles =
    (codes "workloads", codes "Workloads")
    ∷ (codes "transports", codes "Transports, one connection per client")
    ∷ (codes "h1h2", codes "HTTP/1.1 against HTTP/2 under concurrency")
    ∷ (codes "cpu", codes "CPU per query")
    ∷ (codes "handshake", codes "Fresh TLS handshakes")
    ∷ (codes "memory", codes "Memory")
    ∷ (codes "shedding", codes "Past capacity")
    ∷ (codes "loops", codes "Event loops on two cores")
    ∷ (codes "misses", codes "Cache misses against the upstream delay")
    ∷ (codes "connections", codes "Memory per idle connection")
    ∷ (codes "inflight", codes "Memory per query in flight")
    ∷ (codes "latency", codes "Cache-hit latency")
    ∷ (codes "logging", codes "Cost of query logging")
    ∷ (codes "compare", codes "Against the competition")
    ∷ []

abbrev pub IsTitled : Bytes → Section → Type 0
IsTitled t s = s.title ≡ t

-- a section of that title
abbrev pub Titled : Bytes → Act Section → Type 0
Titled t a = Gives (IsTitled t) a

module _ (m : Machine) where
  workloads-Titled : Titled (codes "Workloads") (workloads m)
  unfolding workloads workload_rows
  workloads-Titled = then-Gives _ λ s. deferred-Gives s (
      then-Gives _ λ a.
        then-Gives _ λ b. then-Gives _ λ c. then-Gives _ λ d. then-Gives _ λ e. pure-Gives _ refl)

  transports-Titled : Titled (codes "Transports, one connection per client") (transports m)
  unfolding transports transport_rows
  transports-Titled =
      then-Gives _ λ s. deferred-Gives s (then-Gives _ λ a. then-Gives _ λ b. pure-Gives _ refl)

  h1_versus_h2-Titled : Titled (codes "HTTP/1.1 against HTTP/2 under concurrency") (h1_versus_h2 m)
  unfolding h1_versus_h2 h1h2_rows
  h1_versus_h2-Titled = then-Gives _ λ s. deferred-Gives s (then-Gives _ λ a. pure-Gives _ refl)

  cpu_section-Titled : Titled (codes "CPU per query") (cpu_section m)
  unfolding cpu_section
  cpu_section-Titled = then-Gives _ λ rows. pure-Gives _ refl

  handshakes-Titled : Titled (codes "Fresh TLS handshakes") (handshakes m)
  unfolding handshakes
  handshakes-Titled = then-Gives _ λ rows. pure-Gives _ refl

  memory-Titled : Titled (codes "Memory") (memory m)
  unfolding memory
  memory-Titled =
      then-Gives _ λ a. then-Gives _ λ b. then-Gives _ λ c. then-Gives _ λ d. pure-Gives _ refl

  shedding-Titled : Titled (codes "Past capacity") (shedding m)
  unfolding shedding
  shedding-Titled = then-Gives _ λ rows. pure-Gives _ refl

  loops-Titled : Titled (codes "Event loops on two cores") (loops m)
  unfolding loops
  loops-Titled =
      either_way (Titled (codes "Event loops on two cores")) (pure-Gives _ refl)
        (either_way (Titled (codes "Event loops on two cores"))
          (then-Gives _ λ rows. pure-Gives _ refl) (pure-Gives _ refl) m.has_taskset)
        (ltb m.cpus 4)

  misses-Titled : Titled (codes "Cache misses against the upstream delay") (misses m)
  unfolding misses
  misses-Titled = then-Gives _ λ rows. pure-Gives _ refl

  connections-Titled : Titled (codes "Memory per idle connection") (connections m)
  unfolding connections
  connections-Titled = then-Gives _ λ rows. pure-Gives _ refl

  inflight-Titled : Titled (codes "Memory per query in flight") (inflight m)
  unfolding inflight
  inflight-Titled = then-Gives _ λ mock. then-Gives _ λ rows. pure-Gives _ refl

  latency-Titled : Titled (codes "Cache-hit latency") (latency m)
  unfolding latency
  latency-Titled = then-Gives _ λ rows. pure-Gives _ refl

  logging_cost-Titled : Titled (codes "Cost of query logging") (logging_cost m)
  unfolding logging_cost
  logging_cost-Titled = then-Gives _ λ off. then-Gives _ λ on. then-Gives _ λ w. pure-Gives _ refl

  compare-Titled : Titled (codes "Against the competition") (compare m)
  unfolding compare compared
  compare-Titled =
      either_way (Titled (codes "Against the competition")) (pure-Gives _ refl)
        (then-Gives _
          λ a. then-Gives _ λ b. then-Gives _ λ rows. then-Gives _ λ notes. pure-Gives _ refl)
        (ltb m.cpus 4)

-- steps of these names that give sections of these titles
abbrev pub AllTitled : List (Bytes × Act Section) → List (Bytes × Bytes) → Type 0
AllTitled [] [] = Unit
AllTitled ((name, step) ∷ todo) ((name', t) ∷ rest) =
    (name ≡ name') × Titled t step × AllTitled todo rest
AllTitled todo rest = ⊥

pub run_plan-AllTitled : (m : Machine) → AllTitled (run_plan m) titles
unfolding run_plan
run_plan-AllTitled m = (
  refl,
  workloads-Titled m,
  (
    refl,
    transports-Titled m,
    (
      refl,
      h1_versus_h2-Titled m,
      (
        refl,
        cpu_section-Titled m,
        (
          refl,
          handshakes-Titled m,
          (
            refl,
            memory-Titled m,
            (
              refl,
              shedding-Titled m,
              (
                refl,
                loops-Titled m,
                (
                  refl,
                  misses-Titled m,
                  (
                    refl,
                    connections-Titled m,
                    (
                      refl,
                      inflight-Titled m,
                      (
                        refl,
                        latency-Titled m,
                        (refl, logging_cost-Titled m, (refl, compare-Titled m, tt)),
                      ),
                    ),
                  ),
                ),
              ),
            ),
          ),
        ),
      ),
    ),
  ),
)
