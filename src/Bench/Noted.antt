-- ===== src/Bench/Noted.antt =====
-- In the comparison as many cells of a server read "failed" as there are notes about it.
use elodin.Common.{
  ℕ, ◌≡◌, refl, false, ltb, ◌==◌, ◌&&◌, Bool, count_if-cons, count_if-append, List, [], ◌∷◌, ◌++◌,
  Bytes, codes, Result, ok, err, arith,
}
use elodin.Bench.Options.{ServerOpts}
use elodin.Bench.Servers.{Server}
use elodin.Bench.Competitors.{supports}
use elodin.Bench.Acts.{Trouble, Note, World, Act, pure, next, ◌>>=◌, of_result}
use elodin.Bench.Machine.{Machine}
use elodin.Bench.Rivals.{
  list_cells, memory_row, hit_cell, blocked_cell, hits_served, on_start, row_on, hits_row,
  climb_served, climb_row,
}
use elodin.Bench.Cells.{Line, dash, mib, says, Section, is_failed}
use elodin.Bench.Keeping.{either, either_way}
use elodin.Bench.Sections.{
  held_cell, inflight_cell, waiting_row, compare_held, clear_notes, written, noted, compare_title,
  compare_tables, compared, compare, check_receive_buffer,
}
use elodin.Bench.Noting.{
  Balances, Owes, >>=-Owes, Quiet→Owes, pure-Owes, also, with_cells, with_lines, fail_cell-Owes,
  cell_of-Owes, owed_lines, noted_of, owed_lines-append, each_line, each_cell, row-Owes,
}
use elodin.Bench.Giving.{Holds, Gives, pure-Gives}
use elodin.Bench.Quiet.{
  of_result-Quiet, attempt-Quiet, release-Quiet, start-Quiet, start_mock-Quiet, measure_as-Quiet,
  idle_rss-Quiet, list_rss-Quiet, per_cache_entry-Quiet, blocked-Quiet, climb_server-Quiet,
  held_run-Quiet, inflight_run-Quiet,
}

module _ (mine : Bytes → Bool) (m : Machine) where
  list_cells-Owes :
      (kind : Bytes) (idle n : ℕ) → Owes mine n (with_cells mine kind n) (list_cells m kind idle)
  unfolding list_cells
  list_cells-Owes kind idle n =
      either_way (Owes mine n (with_cells mine kind n))
        (>>=-Owes mine (λ _. n) (Quiet→Owes mine n (attempt-Quiet (list_rss-Quiet m kind)))
          (either (Owes mine n (with_cells mine kind n))
            (λ e. >>=-Owes mine (also mine kind n) (fail_cell-Owes mine n kind _ e) λ c.
              pure-Owes mine (with_cells mine kind n) (c ∷ dash ∷ [])
                (omega (arith, count_if-cons (λ c. is_failed c && mine kind) c (dash ∷ []))))
            (λ weight. pure-Owes mine (with_cells mine kind n) _ (
              either_way (λ c. n ≡ with_cells mine kind n (mib weight ∷ c ∷ [])) (omega arith)
                (omega arith) (ltb 0 idle)))))
        (pure-Owes mine (with_cells mine kind n) (dash ∷ dash ∷ []) (omega arith))
        (supports kind (codes "block"))

  memory_row-Owes : (kind : Bytes) (n : ℕ) → Owes mine n (with_lines mine n) (memory_row m kind)
  unfolding memory_row
  memory_row-Owes kind n =
      >>=-Owes mine (λ _. n) (Quiet→Owes mine n (attempt-Quiet (idle_rss-Quiet m _)))
        λ idle.
          >>=-Owes mine (also mine kind n)
            (cell_of-Owes mine n kind _ _ (of_result-Quiet idle) λ x. refl)
            λ c.
              >>=-Owes mine (with_cells mine kind (also mine kind n c))
                (list_cells-Owes kind _ (also mine kind n c))
                λ cs.
                  >>=-Owes mine (also mine kind (with_cells mine kind (also mine kind n c) cs))
                    (cell_of-Owes mine _ kind _ _ (per_cache_entry-Quiet m kind)
                      λ x. either_way (λ c. is_failed c ≡ false) refl refl (ltb x.1.1 200000))
                    λ entry. row-Owes mine n kind (c ∷ cs ++ entry ∷ []) _ (
                      omega (
                        arith,
                        count_if-cons (λ c. is_failed c && mine kind) c (cs ++ entry ∷ []),
                        count_if-append (λ c. is_failed c && mine kind) cs (entry ∷ []),
                      ))

  hit_cell-Owes :
      (s : Server) (kind t : Bytes) (n : ℕ) → Owes mine n (also mine kind n) (hit_cell m s kind t)
  unfolding hit_cell
  hit_cell-Owes s kind t n =
      either_way (Owes mine n (also mine kind n))
        (cell_of-Owes mine n kind _ _ (measure_as-Quiet m _ s _) λ x. refl)
        (pure-Owes mine (also mine kind n) dash (omega arith)) (supports kind t)

  blocked_cell-Owes : (kind : Bytes) (n : ℕ) → Owes mine n (also mine kind n) (blocked_cell m kind)
  unfolding blocked_cell
  blocked_cell-Owes kind n =
      either_way (Owes mine n (also mine kind n))
        (cell_of-Owes mine n kind _ _ (blocked-Quiet m _ _ _) λ x. refl)
        (pure-Owes mine (also mine kind n) dash (omega arith)) (supports kind (codes "block"))

  -- a server that did not start has one failed cell
  row_on-Owes :
      (kind : Bytes) (o : ServerOpts) {served : Server → Act (List Line)} (n : ℕ)
      → ((s : Server) → Owes mine n (with_lines mine n) (served s))
      → Owes mine n (with_lines mine n) (row_on m kind o served)
  unfolding row_on
  row_on-Owes kind o {served} n later =
      >>=-Owes mine (λ _. n) (Quiet→Owes mine n (attempt-Quiet (start-Quiet m o))) step
    where
      step : (r : Result Trouble Server) → Owes mine n (with_lines mine n) (on_start kind served r)
      step (ok s) = later s
      step (err e) =
          >>=-Owes mine (also mine kind n) (fail_cell-Owes mine n kind _ e)
            λ c. row-Owes mine n kind (c ∷ []) _ refl

  hits_served-Owes :
      (kind : Bytes) (n : ℕ) (s : Server) → Owes mine n (with_lines mine n) (hits_served m kind s)
  unfolding hits_served
  hits_served-Owes kind n s =
      >>=-Owes mine (with_cells mine kind n)
        (each_cell mine kind (λ t n. hit_cell-Owes s kind t n) _ n)
        λ cs.
          >>=-Owes mine (λ _. with_cells mine kind n cs) (Quiet→Owes mine _ (release-Quiet s))
            λ u.
              >>=-Owes mine (also mine kind (with_cells mine kind n cs)) (blocked_cell-Owes kind _)
                λ b.
                  row-Owes mine n kind (cs ++ b ∷ []) _
                    (omega (arith, count_if-append (λ c. is_failed c && mine kind) cs (b ∷ [])))

  hits_row-Owes : (kind : Bytes) (n : ℕ) → Owes mine n (with_lines mine n) (hits_row m kind)
  unfolding hits_row
  hits_row-Owes kind n = row_on-Owes kind _ n (hits_served-Owes kind n)

  climb_served-Owes :
      (kind : Bytes) (n : ℕ) (s : Server) → Owes mine n (with_lines mine n) (climb_served m kind s)
  unfolding climb_served
  climb_served-Owes kind n s =
      >>=-Owes mine (λ _. n) (Quiet→Owes mine n (attempt-Quiet (climb_server-Quiet m s)))
        λ r.
          >>=-Owes mine (λ _. n) (Quiet→Owes mine n (release-Quiet s))
            λ u.
              >>=-Owes mine (also mine kind n)
                (cell_of-Owes mine n kind _ _ (of_result-Quiet r) λ x. refl)
                λ c. row-Owes mine n kind (c ∷ []) _ refl

  climb_row-Owes : (kind : Bytes) (n : ℕ) → Owes mine n (with_lines mine n) (climb_row m kind)
  unfolding climb_row
  climb_row-Owes kind n = row_on-Owes kind _ n (climb_served-Owes kind n)

  held_cell-Owes : (kind t : Bytes) (n : ℕ) → Owes mine n (also mine kind n) (held_cell m kind t)
  unfolding held_cell
  held_cell-Owes kind t n =
      either_way (Owes mine n (also mine kind n))
        (cell_of-Owes mine n kind _ _ (held_run-Quiet m kind t)
          λ x. either_way (λ c. is_failed c ≡ false) refl refl (x.1.answered == 1000))
        (pure-Owes mine (also mine kind n) dash (omega arith)) (supports kind t)

  waiting_row-Owes :
      (mock kind : Bytes) (n : ℕ) → Owes mine n (with_lines mine n) (waiting_row m mock kind)
  unfolding waiting_row inflight_cell
  waiting_row-Owes mock kind n =
      >>=-Owes mine (with_cells mine kind n)
        (each_cell mine kind (λ t n. held_cell-Owes kind t n) _ n)
        λ cs.
          >>=-Owes mine (also mine kind (with_cells mine kind n cs))
            (cell_of-Owes mine _ kind _ _ (inflight_run-Quiet m kind mock) λ x. refl)
            λ c.
              row-Owes mine n kind (cs ++ c ∷ []) _
                (omega (arith, count_if-append (λ c. is_failed c && mine kind) cs (c ∷ [])))

  compare_held-Owes : (n : ℕ) → Owes mine n (with_lines mine n) (compare_held m)
  unfolding compare_held
  compare_held-Owes n =
      >>=-Owes mine (λ _. n) (Quiet→Owes mine n (start_mock-Quiet m _))
        λ mock. each_line mine (waiting_row-Owes mock) m.kinds n

  compare_tables-Owes : (n : ℕ) → Owes mine n (with_lines mine n) (compare_tables m)
  unfolding compare_tables
  compare_tables-Owes n =
      >>=-Owes mine (with_lines mine n) (each_line mine memory_row-Owes m.kinds n) λ a.
        >>=-Owes mine (with_lines mine (with_lines mine n a))
          (each_line mine hits_row-Owes m.kinds _)
          λ b.
            >>=-Owes mine (with_lines mine (with_lines mine (with_lines mine n a) b))
              (each_line mine climb_row-Owes m.kinds _)
              λ c.
                >>=-Owes mine
                  (with_lines mine (with_lines mine (with_lines mine (with_lines mine n a) b) c))
                  (compare_held-Owes _)
                  λ d. pure-Owes mine (with_lines mine n) (a ++ (b ++ (c ++ d))) (
                    omega (
                      arith,
                      owed_lines-append mine a (b ++ (c ++ d)),
                      owed_lines-append mine b (c ++ d),
                      owed_lines-append mine c d,
                    ))

-- The body of the comparison is rows and then notes, if there are any, and as many of the cells of `mine`
-- read "failed" as there are notes about them.
abbrev pub NotesFailures : (Bytes → Bool) → Section → Type 0
NotesFailures mine s =
    (rows : List Line) × (notes : List Note) × (s.body ≡ rows ++ written notes)
    × (owed_lines mine s.body ≡ noted_of mine notes)

owed_lines-written : (mine : Bytes → Bool) (notes : List Note) → owed_lines mine (written notes) ≡ 0
owed_lines-written mine [] = refl
owed_lines-written mine (n ∷ notes) = refl

compared-NotesFailures :
    (mine : Bytes → Bool) (m : Machine) → Gives (NotesFailures mine) (compared m)
unfolding compared of_result ◌>>=◌ pure
compared-NotesFailures mine m = record {
  gives = λ w. step w (check_receive_buffer m.rmem) (compare_tables-Owes mine m 0);
}
  where
    after :
        (r : Result Trouble (List Line)) (v w : World)
        → Balances mine 0 (with_lines mine 0) w (r, v)
        → noted_of mine w.notes ≡ 0
        → Holds
            (NotesFailures mine)
            (next
              (λ rows.
                noted >>= λ notes. pure (record { title = compare_title; body = rows ++ notes }))
              (r, v)).0
    after (err e) v w balance empty = tt
    after (ok rows) v w balance empty = (
      rows,
      v.notes,
      refl,
      omega (arith, owed_lines-append mine rows (written v.notes), owed_lines-written mine v.notes),
    )

    step :
        (w : World) (r : Result Trouble (Unit {0}))
        → Owes mine 0 (with_lines mine 0) (compare_tables m)
        → Holds
            (NotesFailures mine)
            (next
              (λ _. clear_notes >>= λ _. compare_tables m >>= λ rows.
                noted >>= λ notes. pure (record { title = compare_title; body = rows ++ notes }))
              (r, w)).0
    step w (err e) o = tt
    step w (ok u) o =
        after (compare_tables m (record w { notes = [] })).0
          (compare_tables m (record w { notes = [] })).1 (record w { notes = [] }) (o.owes _) refl

-- The section that `compare` gives is rows and then notes, if there are any. For any one server or several, as
-- many cells read "failed" in the rows that begin with their names as there are notes about them, whatever
-- the machine does.
pub compare-NotesFailures :
    (mine : Bytes → Bool) (m : Machine) (w : World) → Holds (NotesFailures mine) (compare m w).0
unfolding compare
compare-NotesFailures mine m w =
    (either_way (Gives (NotesFailures mine))
        (pure-Gives _ (says (codes "Skipped: needs four CPUs.\n") ∷ [], [], refl, refl))
        (compared-NotesFailures mine m) (ltb m.cpus 4)).gives
      w
