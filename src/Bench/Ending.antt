-- ===== src/Bench/Ending.antt =====
-- A cell of the comparison that fails does not end it, and no server is left running.
use elodin.Common.{
  ℕ, ◌≡◌, refl, false, List, [], ◌∷◌, Bytes, codes, Result, ok, err, value, is_none, ap, ◌∙◌,
}
use elodin.Bench.Options.{ServerOpts}
use elodin.Bench.Servers.{Server, stop}
use elodin.Bench.Lifetimes.{stop_first}
use elodin.Bench.Competitors.{supports}
use elodin.Bench.Acts.{Trouble, World, Act, pure, next, attempt, ◌>>=◌}
use elodin.Bench.Machine.{Machine, start, release}
use elodin.Bench.Rivals.{
  fail_cell, cell_of, await_list, list_rss, fill, per_cache_entry, list_cells, memory_row, hit_cell,
  blocked_cell, hits_served, on_start, row_on, hits_row, climb_server, climb_served, climb_row,
}
use elodin.Bench.Sections.{held_run, held_cell, inflight_run, inflight_cell, waiting_row}
use elodin.Bench.Cells.{Cell, Line, line, server}
use elodin.Bench.Keeping.{
  Keeps, Calm, >>=-Keeps, >>=-Calm, >>=-Releases, Calm→Keeps, pure-Calm, pure-Keeps, attempt-Calm,
  of_result-Keeps, reading-Calm, deferred-Releases, for_each-Calm, Starts, start-Starts,
  start-Keeps, stopped-Releases, either, either_way,
}
use elodin.Bench.Stopping.{measure_as-Keeps, ask_once-Keeps, rss-Calm, idle_rss-Keeps}

fail_cell-Calm : (kind what : Bytes) (e : Trouble) → Calm (fail_cell kind what e)
unfolding fail_cell
fail_cell-Calm kind what e = record { calm = λ w. (refl, refl) }

cell_of-Calm {ℓ} :
    {A : Type ℓ} (kind what : Bytes) (show : A → Cell) {a : Act A}
    → Keeps a
    → Calm (cell_of kind what show a)
unfolding cell_of
cell_of-Calm kind what show kept =
    >>=-Calm (attempt-Calm kept) (either Calm (fail_cell-Calm kind what) (λ x. pure-Calm (show x)))

-- a list of one cell
cells-Calm : {a : Act Cell} → Calm a → Calm (a >>= λ c. pure (c ∷ []))
cells-Calm calm = >>=-Calm calm λ c. pure-Calm _

-- no error, and what runs afterwards is what ran before, without the server
record Ends {ℓ} {A : Type ℓ} (s : Server) (a : Act A) : Type 0 where
  ends : (w : World) → (is_none (value (a w).0) ≡ false) × ((a w).1.live ≡ stop s.process w.live)

>>=-Ends {ℓ κ} :
    {A : Type ℓ} {B : Type κ} {a : Act A} {f : A → Act B} {s : Server}
    → Calm a
    → ((x : A) → Ends s (f x))
    → Ends s (a >>= f)
unfolding ◌>>=◌
>>=-Ends {A = A} {a = a} {f = f} {s = s} c later = record {
  ends = λ w. step w (a w).0 (a w).1 (c.calm w).0 (c.calm w).1;
}
  where
    step :
        (w : World) (r : Result Trouble A) (v : World)
        → is_none (value r) ≡ false
        → v.live ≡ w.live
        → (is_none (value (next f (r, v)).0) ≡ false)
          × ((next f (r, v)).1.live ≡ stop s.process w.live)
    step w (ok x) v fine same =
        (((later x).ends v).0, ((later x).ends v).1 ∙ ap (stop s.process) same)
    step w (err e) v fine same = absurd cc

release-Ends {ℓ} :
    {A : Type ℓ} {s : Server} {f : Unit {0} → Act A}
    → ((u : Unit {0}) → Calm (f u))
    → Ends s (release s >>= f)
unfolding release ◌>>=◌
release-Ends later = record { ends = λ w. (later tt).calm _ }

-- a server that does not start is a failed cell; one that does is stopped by what is done on it
row_on-Calm :
    (m : Machine) (kind : Bytes) (o : ServerOpts) {served : Server → Act (List Line)}
    → ((s : Server) → Ends s (served s))
    → Calm (row_on m kind o served)
unfolding row_on attempt ◌>>=◌
row_on-Calm m kind o {served} later = record {
  calm = λ w. step w (start m o w).0 (start m o w).1 (start-Starts m o w);
}
  where
    step :
        (w : World) (r : Result Trouble Server) (v : World)
        → Starts w (r, v)
        → (is_none (value (on_start kind served r v).0) ≡ false)
          × ((on_start kind served r v).1.live ≡ w.live)
    step w (err e) v same =
        let c =
          >>=-Calm (fail_cell-Calm kind (codes "start") e)
            (λ c. pure-Calm (line (server kind ∷ c ∷ []))) in
        ((c.calm v).0, (c.calm v).1 ∙ same)
    step w (ok s) v more = (
      ((later s).ends v).0,
      ((later s).ends v).1 ∙ (ap (stop s.process) more ∙ stop_first s.process w.live),
    )

module _ (m : Machine) where
  await_list-Keeps : (s : Server) → Keeps (await_list m s)
  unfolding await_list
  await_list-Keeps s = >>=-Keeps (Calm→Keeps (reading-Calm _)) of_result-Keeps

  list_rss-Keeps : (kind : Bytes) → Keeps (list_rss m kind)
  unfolding list_rss
  list_rss-Keeps kind =
      start-Keeps m _
        λ s. deferred-Releases (>>=-Keeps (await_list-Keeps s) λ u. Calm→Keeps (rss-Calm m s))

  fill-Keeps : (kind : Bytes) (entries : ℕ) → Keeps (fill m kind entries)
  unfolding fill
  fill-Keeps kind entries = start-Keeps m _ λ s. deferred-Releases (
      >>=-Keeps (measure_as-Keeps m s _ _)
        λ r. >>=-Keeps (Calm→Keeps (rss-Calm m s)) λ weight. pure-Keeps _)

  per_cache_entry-Keeps : (kind : Bytes) → Keeps (per_cache_entry m kind)
  unfolding per_cache_entry
  per_cache_entry-Keeps kind =
      >>=-Keeps (fill-Keeps kind _) λ a. >>=-Keeps (fill-Keeps kind _) λ b. pure-Keeps _

  list_cells-Calm : (kind : Bytes) (idle : ℕ) → Calm (list_cells m kind idle)
  unfolding list_cells
  list_cells-Calm kind idle =
      either_way Calm
        (>>=-Calm (attempt-Calm (list_rss-Keeps kind)) (
          either Calm (λ e. >>=-Calm (fail_cell-Calm kind _ e) λ c. pure-Calm _)
            (λ weight. pure-Calm _)))
        (pure-Calm _) (supports kind (codes "block"))

  pub memory_row-Calm : (kind : Bytes) → Calm (memory_row m kind)
  unfolding memory_row
  memory_row-Calm kind = >>=-Calm (attempt-Calm (idle_rss-Keeps m _)) λ idle.
      >>=-Calm (cell_of-Calm kind _ _ (of_result-Keeps idle)) λ c.
        >>=-Calm (list_cells-Calm kind _)
          λ cs. >>=-Calm (cell_of-Calm kind _ _ (per_cache_entry-Keeps kind)) λ entry. pure-Calm _

  hit_cell-Calm : (s : Server) (kind t : Bytes) → Calm (hit_cell m s kind t)
  unfolding hit_cell
  hit_cell-Calm s kind t =
      either_way Calm (cell_of-Calm kind _ _ (measure_as-Keeps m s _ _)) (pure-Calm _)
        (supports kind t)

  blocked_cell-Calm : (kind : Bytes) → Calm (blocked_cell m kind)
  unfolding blocked_cell
  blocked_cell-Calm kind =
      either_way Calm
        (cell_of-Calm kind _ _ (
          start-Keeps m _
            λ s. deferred-Releases (>>=-Keeps (await_list-Keeps s) λ u. measure_as-Keeps m s _ _)))
        (pure-Calm _) (supports kind (codes "block"))

  hits_served-Ends : (kind : Bytes) (s : Server) → Ends s (hits_served m kind s)
  unfolding hits_served
  hits_served-Ends kind s =
      >>=-Ends (for_each-Calm (λ t. cells-Calm (hit_cell-Calm s kind t)) _)
        λ cs. release-Ends λ u. >>=-Calm (blocked_cell-Calm kind) λ b. pure-Calm _

  pub hits_row-Calm : (kind : Bytes) → Calm (hits_row m kind)
  unfolding hits_row
  hits_row-Calm kind = row_on-Calm m kind _ (hits_served-Ends kind)

  climb_server-Keeps : (s : Server) → Keeps (climb_server m s)
  unfolding climb_server
  climb_server-Keeps s = >>=-Keeps (Calm→Keeps (reading-Calm _)) of_result-Keeps

  climb_served-Ends : (kind : Bytes) (s : Server) → Ends s (climb_served m kind s)
  unfolding climb_served
  climb_served-Ends kind s =
      >>=-Ends (attempt-Calm (climb_server-Keeps s))
        λ r. release-Ends λ u. >>=-Calm (cell_of-Calm kind _ _ (of_result-Keeps r)) λ c. pure-Calm _

  pub climb_row-Calm : (kind : Bytes) → Calm (climb_row m kind)
  unfolding climb_row
  climb_row-Calm kind = row_on-Calm m kind _ (climb_served-Ends kind)

  held_run-Keeps : (kind t : Bytes) → Keeps (held_run m kind t)
  unfolding held_run
  held_run-Keeps kind t = start-Keeps m _ λ s. >>=-Releases (rss-Calm m s) λ before.
      stopped-Releases (ask_once-Keeps m s _ _ _)
        λ r. >>=-Keeps (of_result-Keeps _) λ x. pure-Keeps _

  inflight_run-Keeps : (kind mock : Bytes) → Keeps (inflight_run m kind mock)
  unfolding inflight_run
  inflight_run-Keeps kind mock = start-Keeps m _ λ s. >>=-Releases (rss-Calm m s) λ idle.
      stopped-Releases (ask_once-Keeps m s _ _ _)
        λ r. >>=-Keeps (of_result-Keeps _) λ x. pure-Keeps _

  pub waiting_row-Calm : (mock kind : Bytes) → Calm (waiting_row m mock kind)
  unfolding waiting_row held_cell inflight_cell
  waiting_row-Calm mock kind =
      >>=-Calm
        (for_each-Calm
          (λ t. cells-Calm (
            either_way Calm (cell_of-Calm kind _ _ (held_run-Keeps kind t)) (pure-Calm _)
              (supports kind t)))
          _)
        λ cs. >>=-Calm (cell_of-Calm kind _ _ (inflight_run-Keeps kind mock)) λ c. pure-Calm _
