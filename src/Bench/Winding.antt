-- ===== src/Bench/Winding.antt =====
-- The sections that load a server to its bounds, the log's, and the comparison stop the servers that
-- they start.
use elodin.Common.{ℕ, Bool, ltb, Option, none, some, if◌then◌else◌, Bytes, Result, ok, err}
use elodin.Bench.Load.{Run}
use elodin.Bench.Acts.{Trouble, Act, pure, fail_with, no_stat}
use elodin.Bench.Machine.{Machine, Statfs}
use elodin.Bench.Scaling.{
  loops_row, loops, misses_row, misses_at, misses, held_row, connections_row, connections,
  inflight_row, inflight, shedding_row, shedding,
}
use elodin.Bench.Weighing.{
  free_bytes, room, log_disk_room, log_disk_filled, unless_filled, log_run, log_bytes, logging_cost,
}
use elodin.Bench.Keeping.{
  Keeps, >>=-Keeps, >>=-Releases, Calm→Keeps, pure-Keeps, fail_with-Keeps, of_result-Keeps,
  reading-Calm, for_each-Keeps, start-Keeps, stopped-Releases, either_way,
}
use elodin.Bench.Stopping.{
  measure-Keeps, ask_once-Keeps, rss-Calm, miss_and_hit-Keeps, start_mock-Keeps,
}

module _ (m : Machine) where
  pub loops-Keeps : Keeps (loops m)
  unfolding loops loops_row
  loops-Keeps =
      either_way Keeps (pure-Keeps _)
        (either_way Keeps
          (>>=-Keeps
            (for_each-Keeps
              (λ kind.
                for_each-Keeps
                  (λ n. start-Keeps m _ λ s.
                    stopped-Releases (miss_and_hit-Keeps m s)
                      λ r. >>=-Keeps (of_result-Keeps _) λ x. pure-Keeps _)
                  _)
              m.kinds)
            λ rows. pure-Keeps _)
          (pure-Keeps _) m.has_taskset)
        (ltb m.cpus 4)

  pub misses-Keeps : Keeps (misses m)
  unfolding misses misses_at misses_row
  misses-Keeps =
      >>=-Keeps
        (for_each-Keeps
          (λ rtt. >>=-Keeps (start_mock-Keeps m rtt) λ mock.
            for_each-Keeps
              (λ kind. start-Keeps m _ λ s.
                stopped-Releases (measure-Keeps m s _)
                  λ r. >>=-Keeps (of_result-Keeps _) λ x. pure-Keeps _)
              m.kinds)
          _)
        λ rows. pure-Keeps _

  held_row-Keeps : (kind t : Bytes) (n : ℕ) → Keeps (held_row m kind t n)
  unfolding held_row
  held_row-Keeps kind t n = start-Keeps m _ λ s. >>=-Releases (rss-Calm m s) λ before.
      stopped-Releases (ask_once-Keeps m s _ _ _)
        λ r. >>=-Keeps (of_result-Keeps _) λ x. pure-Keeps _

  pub connections-Keeps : Keeps (connections m)
  unfolding connections connections_row
  connections-Keeps =
      >>=-Keeps
        (for_each-Keeps
          (λ kind.
            for_each-Keeps
              (λ t.
                for_each-Keeps (λ n. either_way Keeps (pure-Keeps _) (held_row-Keeps kind t n) _) _)
              _)
          m.kinds)
        λ rows. pure-Keeps _

  pub inflight-Keeps : Keeps (inflight m)
  unfolding inflight inflight_row
  inflight-Keeps = >>=-Keeps (start_mock-Keeps m _) λ mock.
      >>=-Keeps
        (for_each-Keeps
          (λ kind.
            for_each-Keeps
              (λ n. start-Keeps m _ λ s. >>=-Releases (rss-Calm m s) λ idle.
                stopped-Releases (ask_once-Keeps m s _ _ _)
                  λ r. >>=-Keeps (of_result-Keeps _) λ x. pure-Keeps _)
              _)
          m.kinds)
        λ rows. pure-Keeps _

  pub shedding-Keeps : Keeps (shedding m)
  unfolding shedding shedding_row
  shedding-Keeps =
      >>=-Keeps
        (for_each-Keeps
          (λ mp. start-Keeps m _ λ s.
            stopped-Releases (measure-Keeps m s _)
              λ r. >>=-Keeps (of_result-Keeps _) λ x. pure-Keeps _)
          _)
        λ rows. pure-Keeps _

  room-Keeps : (need : ℕ) (refused : ℕ → Trouble) → Keeps (room m need refused)
  unfolding room
  room-Keeps need refused = >>=-Keeps (Calm→Keeps (reading-Calm _)) step
    where
      step :
          (found : Option Statfs)
          → Keeps (elim found as (λ _. Act (Unit {0})) [
            | none ↦ fail_with no_stat
            | some fs ↦
                if ltb (free_bytes fs) need then fail_with (refused (free_bytes fs)) else pure tt
          ])
      step none = fail_with-Keeps _
      step (some fs) =
          either_way Keeps (fail_with-Keeps _) (pure-Keeps tt) (ltb (free_bytes fs) need)

  pub log_disk_room-Keeps : Keeps (log_disk_room m)
  unfolding log_disk_room
  log_disk_room-Keeps = room-Keeps _ _

  unless_filled-Keeps : (r : Result Trouble Run) → Keeps (unless_filled m r)
  unfolding unless_filled log_disk_filled
  unless_filled-Keeps (err e) = fail_with-Keeps e
  unless_filled-Keeps (ok r) = >>=-Keeps (room-Keeps _ _) λ u. pure-Keeps r

  log_run-Keeps : (name : Bytes) (on : Bool) → Keeps (log_run m name on)
  unfolding log_run
  log_run-Keeps name on =
      start-Keeps m _ λ s. stopped-Releases (measure-Keeps m s _) unless_filled-Keeps

  log_bytes-Keeps : Keeps (log_bytes m)
  unfolding log_bytes
  log_bytes-Keeps = start-Keeps m _ λ s. >>=-Releases (reading-Calm _) λ before.
      stopped-Releases (measure-Keeps m s _) λ r.
        >>=-Keeps (Calm→Keeps (reading-Calm _))
          λ after. >>=-Keeps (unless_filled-Keeps r) λ x. pure-Keeps _

  pub logging_cost-Keeps : Keeps (logging_cost m)
  unfolding logging_cost
  logging_cost-Keeps =
      >>=-Keeps (log_run-Keeps _ _)
        λ off. >>=-Keeps (log_run-Keeps _ _) λ on. >>=-Keeps log_bytes-Keeps λ w. pure-Keeps _
