-- ===== src/Bench/Leaving.antt =====
-- The comparison stops the servers that it starts, and so does a whole run.
use elodin.Common.{◌≡◌, refl, ltb, List, [], ◌∷◌, Bytes, codes, All}
use elodin.Bench.Acts.{World, Act}
use elodin.Bench.Machine.{Machine}
use elodin.Bench.Sections.{
  compare_held, clear_notes, noted, compare_tables, compared, compare, wanted, run_plan, run_steps,
  run_sections,
}
use elodin.Bench.Cells.{Section}
use elodin.Bench.Keeping.{
  Keeps, >>=-Keeps, Calm→Keeps, pure-Keeps, context-Keeps, of_result-Keeps, for_each-Calm,
  either_way,
}
use elodin.Bench.Ending.{memory_row-Calm, hits_row-Calm, climb_row-Calm, waiting_row-Calm}
use elodin.Bench.Stopping.{
  start_mock-Keeps, workloads-Keeps, transports-Keeps, h1_versus_h2-Keeps, cpu_section-Keeps,
  latency-Keeps, handshakes-Keeps, memory-Keeps,
}
use elodin.Bench.Winding.{
  loops-Keeps, misses-Keeps, connections-Keeps, inflight-Keeps, shedding-Keeps, log_disk_room-Keeps,
  logging_cost-Keeps,
}

clear_notes-Keeps : Keeps clear_notes
clear_notes-Keeps = record { keeps = λ w. refl }

noted-Keeps : Keeps noted
noted-Keeps = record { keeps = λ w. refl }

module _ (m : Machine) where
  compare_held-Keeps : Keeps (compare_held m)
  unfolding compare_held
  compare_held-Keeps =
      >>=-Keeps (start_mock-Keeps m _)
        λ mock. Calm→Keeps (for_each-Calm (waiting_row-Calm m mock) m.kinds)

  compare_tables-Keeps : Keeps (compare_tables m)
  unfolding compare_tables
  compare_tables-Keeps =
      >>=-Keeps (Calm→Keeps (for_each-Calm (memory_row-Calm m) m.kinds)) λ weights.
        >>=-Keeps (Calm→Keeps (for_each-Calm (hits_row-Calm m) m.kinds)) λ hits.
          >>=-Keeps (Calm→Keeps (for_each-Calm (climb_row-Calm m) m.kinds))
            λ misses. >>=-Keeps compare_held-Keeps λ held. pure-Keeps _

  compared-Keeps : Keeps (compared m)
  unfolding compared
  compared-Keeps = >>=-Keeps (of_result-Keeps _) λ u.
      >>=-Keeps clear_notes-Keeps
        λ u'. >>=-Keeps compare_tables-Keeps λ rows. >>=-Keeps noted-Keeps λ notes. pure-Keeps _

  compare-Keeps : Keeps (compare m)
  unfolding compare
  compare-Keeps = either_way Keeps (pure-Keeps _) compared-Keeps (ltb m.cpus 4)

  run_steps-Keeps :
      (filter : Bytes) (todo : List (Bytes × Act Section))
      → All (λ step. Keeps step.1) todo
      → Keeps (run_steps filter todo)
  unfolding run_steps
  run_steps-Keeps filter [] kept = pure-Keeps []
  run_steps-Keeps filter ((name, step) ∷ later) (k, ks) =
      either_way Keeps
        (>>=-Keeps (context-Keeps _ k)
          λ s. >>=-Keeps (run_steps-Keeps filter later ks) λ more. pure-Keeps _)
        (run_steps-Keeps filter later ks) (wanted filter name)

  run_plan-Keeps : All (λ step. Keeps step.1) (run_plan m)
  unfolding run_plan
  run_plan-Keeps = (
    workloads-Keeps m,
    (
      transports-Keeps m,
      (
        h1_versus_h2-Keeps m,
        (
          cpu_section-Keeps m,
          (
            handshakes-Keeps m,
            (
              memory-Keeps m,
              (
                shedding-Keeps m,
                (
                  loops-Keeps m,
                  (
                    misses-Keeps m,
                    (
                      connections-Keeps m,
                      (
                        inflight-Keeps m,
                        (latency-Keeps m, (logging_cost-Keeps m, (compare-Keeps, tt))),
                      ),
                    ),
                  ),
                ),
              ),
            ),
          ),
        ),
      ),
    ),
  )

  run_sections-Keeps : (filter : Bytes) → Keeps (run_sections filter m)
  unfolding run_sections
  run_sections-Keeps filter =
      either_way Keeps
        (>>=-Keeps (context-Keeps _ (log_disk_room-Keeps m))
          λ u. run_steps-Keeps filter _ run_plan-Keeps)
        (run_steps-Keeps filter _ run_plan-Keeps) (wanted filter (codes "logging"))

-- Whatever the machine does and whichever sections are asked for, once `runAll` has returned, with a
-- report or with an error, the servers that run are those that ran before: every server that a section
-- started was stopped. It is the processes of servers that are counted; the mocks run on.
pub run_sections-releases :
    (filter : Bytes) (m : Machine) (w : World) → (run_sections filter m w).1.live ≡ w.live
run_sections-releases filter m w = (run_sections-Keeps m filter).keeps w
