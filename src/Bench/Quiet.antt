-- ===== src/Bench/Quiet.antt =====
-- What is measured for a cell of the comparison writes no note.
use elodin.Common.{ℕ, ◌≡◌, refl, ◌∙◌, Bytes, Result, ok, err, arith}
use elodin.Bench.Options.{ServerOpts}
use elodin.Bench.Servers.{Server}
use elodin.Bench.Acts.{Trouble, World, Act, pure, next, ◌>>=◌, attempt, of_result, reading}
use elodin.Bench.Runs.{LoadOpts}
use elodin.Bench.Machine.{
  Machine, started, start, release, deferred, start_mock, measure, expect, measure_as, ask_once,
  rss,
}
use elodin.Bench.Weighing.{idle_rss}
use elodin.Bench.Rivals.{await_list, list_rss, fill, per_cache_entry, climb_server}
use elodin.Bench.Sections.{held_run, inflight_run}

pub record Quiet {ℓ} {A : Type ℓ} (a : Act A) : Type 0 where
  pub quiet : (w : World) → (a w).1.notes ≡ w.notes

pub >>=-Quiet {ℓ κ} :
    {A : Type ℓ} {B : Type κ} {a : Act A} {f : A → Act B}
    → Quiet a
    → ((x : A) → Quiet (f x))
    → Quiet (a >>= f)
unfolding ◌>>=◌
>>=-Quiet {A = A} {a = a} {f = f} q later = record {
  quiet = λ w. step w (a w).0 (a w).1 (q.quiet w);
}
  where
    step :
        (w : World) (r : Result Trouble A) (v : World)
        → v.notes ≡ w.notes
        → (next f (r, v)).1.notes ≡ w.notes
    step w (ok x) v same = (later x).quiet v ∙ same
    step w (err e) v same = same

module _ {ℓ} {A : Type ℓ} where
  pure-Quiet : (x : A) → Quiet (pure x)
  unfolding pure
  pure-Quiet x = record { quiet = λ w. refl }

  pub of_result-Quiet : (r : Result Trouble A) → Quiet (of_result r)
  unfolding of_result
  of_result-Quiet r = record { quiet = λ w. refl }

  pub attempt-Quiet : {a : Act A} → Quiet a → Quiet (attempt a)
  unfolding attempt
  attempt-Quiet q = record { quiet = λ w. q.quiet w }

  reading-Quiet : (f : ℕ → A) → Quiet (reading f)
  unfolding reading
  reading-Quiet f = record { quiet = λ w. refl }

pub release-Quiet : (s : Server) → Quiet (release s)
unfolding release
release-Quiet s = record { quiet = λ w. refl }

-- a result that is read at a time
read-Quiet {ℓ} : {A : Type ℓ} (f : ℕ → Result Trouble A) → Quiet (reading f >>= of_result)
read-Quiet f = >>=-Quiet (reading-Quiet f) of_result-Quiet

deferred-Quiet {ℓ} : {A : Type ℓ} (s : Server) {a : Act A} → Quiet a → Quiet (deferred s a)
unfolding deferred
deferred-Quiet s q =
    >>=-Quiet (attempt-Quiet q) λ r. >>=-Quiet (release-Quiet s) λ u. of_result-Quiet r

module _ (m : Machine) where
  pub start-Quiet : (o : ServerOpts) → Quiet (start m o)
  unfolding start started
  start-Quiet o = record { quiet = λ w. refl }

  pub start_mock-Quiet : (delay : ℕ) → Quiet (start_mock m delay)
  unfolding start_mock
  start_mock-Quiet delay = record { quiet = λ w. ground arith }

  pub measure_as-Quiet : (want : Bytes) (s : Server) (o : LoadOpts) → Quiet (measure_as want m s o)
  unfolding measure_as measure
  measure_as-Quiet want s o =
      >>=-Quiet (read-Quiet _) λ r. >>=-Quiet (of_result-Quiet (expect want r)) λ u. pure-Quiet r

  rss-Quiet : (s : Server) → Quiet (rss m s)
  unfolding rss
  rss-Quiet s = reading-Quiet _

  -- the server of a cell, and what is measured on it
  on_server-Quiet {ℓ} :
      {A : Type ℓ} (o : ServerOpts) {f : Server → Act A}
      → ((s : Server) → Quiet (f s))
      → Quiet (start m o >>= λ s. deferred s (f s))
  on_server-Quiet o later = >>=-Quiet (start-Quiet o) λ s. deferred-Quiet s (later s)

  pub idle_rss-Quiet : (o : ServerOpts) → Quiet (idle_rss m o)
  unfolding idle_rss
  idle_rss-Quiet o = on_server-Quiet o rss-Quiet

  await_list-Quiet : (s : Server) → Quiet (await_list m s)
  unfolding await_list
  await_list-Quiet s = read-Quiet _

  pub list_rss-Quiet : (kind : Bytes) → Quiet (list_rss m kind)
  unfolding list_rss
  list_rss-Quiet kind = on_server-Quiet _ λ s. >>=-Quiet (await_list-Quiet s) λ u. rss-Quiet s

  fill-Quiet : (kind : Bytes) (entries : ℕ) → Quiet (fill m kind entries)
  unfolding fill
  fill-Quiet kind entries =
      on_server-Quiet _
        λ s. >>=-Quiet (measure_as-Quiet _ s _) λ r. >>=-Quiet (rss-Quiet s) λ weight. pure-Quiet _

  pub per_cache_entry-Quiet : (kind : Bytes) → Quiet (per_cache_entry m kind)
  unfolding per_cache_entry
  per_cache_entry-Quiet kind =
      >>=-Quiet (fill-Quiet kind _) λ a. >>=-Quiet (fill-Quiet kind _) λ b. pure-Quiet _

  -- what is measured for `blockedCell`
  pub blocked-Quiet :
      (o : ServerOpts) (want : Bytes) (load : LoadOpts)
      → Quiet (start m o >>= λ s. deferred s (await_list m s >>= λ _. measure_as want m s load))
  blocked-Quiet o want load =
      on_server-Quiet o λ s. >>=-Quiet (await_list-Quiet s) λ u. measure_as-Quiet want s load

  pub climb_server-Quiet : (s : Server) → Quiet (climb_server m s)
  unfolding climb_server
  climb_server-Quiet s = read-Quiet _

  ask_once-Quiet :
      (s : Server) (transport : Bytes) (n : ℕ) (qmode : Bytes)
      → Quiet (ask_once m s transport n qmode)
  unfolding ask_once
  ask_once-Quiet s transport n qmode = read-Quiet _

  pub held_run-Quiet : (kind t : Bytes) → Quiet (held_run m kind t)
  unfolding held_run
  held_run-Quiet kind t = >>=-Quiet (start-Quiet _) λ s. >>=-Quiet (rss-Quiet s) λ before.
      >>=-Quiet (attempt-Quiet (ask_once-Quiet s _ _ _)) λ result.
        >>=-Quiet (release-Quiet s) λ u. >>=-Quiet (of_result-Quiet result) λ r. pure-Quiet _

  pub inflight_run-Quiet : (kind mock : Bytes) → Quiet (inflight_run m kind mock)
  unfolding inflight_run
  inflight_run-Quiet kind mock = >>=-Quiet (start-Quiet _) λ s. >>=-Quiet (rss-Quiet s) λ idle.
      >>=-Quiet (attempt-Quiet (ask_once-Quiet s _ _ _)) λ result.
        >>=-Quiet (release-Quiet s) λ u. >>=-Quiet (of_result-Quiet result) λ r. pure-Quiet _
