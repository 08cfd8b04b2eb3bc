-- ===== src/Bench/Cells.antt =====
-- bench/cmd/bench: what a section of the report holds.
--
-- A cell is held as what it is printed from: a report for a throughput or a percentile, two sizes for what one
-- is above the other. The prose above a table and the heads of its columns are left out.
use elodin.Common.{ℕ, ◌+◌, Bool, true, false, List, [], ◌∷◌, count_if, Bytes}
use elodin.Bench.Load.{Report, ServerSample}
use elodin.Bench.Ladder.{Row}
use elodin.Bench.Acts.{Note}

pub data Cell : Type 0 where
  text : Bytes → Cell
  server : Bytes → Cell
  count : ℕ → Cell
  qps p50 p99 per_client errors : Report → Cell
  answered : Report → ℕ → Cell
  cpu : ServerSample → Report → Cell
  mib : ℕ → Cell
  mib_above : ℕ → ℕ → Cell
  -- a size less another, over a number, and the report that says how many were answered
  per_item : ℕ → ℕ → ℕ → Cell
  per_answered : ℕ → ℕ → ℕ → Report → Cell
  -- a size less another, over a number less another
  per_entry : ℕ → ℕ → ℕ → ℕ → Cell
  -- and the entries of the larger cache, if it is not full
  per_entry_filled : ℕ → ℕ → ℕ → ℕ → Cell
  -- a number over a time
  ceiling : ℕ → ℕ → Cell
  spread : ServerSample → Cell
  -- what a second report lost of a first
  cost : Report → Report → Cell
  -- throughput, percentile, CPU and what timed out
  hits : Report → ServerSample → Cell
  climbed : Row → Cell
  failed dash : Cell

pub data Line : Type 0 where
  row : List Cell → Line
  says : Bytes → Line
  failures : List Note → Line

pub record Section : Type 0 where
  pub title : Bytes
  pub body : List Line

-- `sb.WriteString` of one row
abbrev pub line : List Cell → List Line
line cells = row cells ∷ []

-- the cells that read "failed"
abbrev pub is_failed : Cell → Bool
is_failed failed = true
is_failed c = false

abbrev pub failed_cells : List Cell → ℕ
failed_cells cells = count_if is_failed cells

abbrev pub failed_lines : List Line → ℕ
failed_lines [] = 0
failed_lines (row cells ∷ lines) = failed_cells cells + failed_lines lines
failed_lines (l ∷ lines) = failed_lines lines
