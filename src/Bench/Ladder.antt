-- ===== src/Bench/Ladder.antt =====
-- bench/cmd/bench/compare.go: the offered rates a server climbs, and the waits and figures beside them.
--
-- What `load` returns at a rate is input (Load models how it comes about), as is what arrives for a
-- query. `st.r.QPS >= 0.97*float64(st.rate)` is `970 * rate ≤ qps`, a throughput being in thousandths,
-- and `float64(Errors) <= missClean*float64(asked)` is `1000 * errors ≤ asked`. A row holds its reports
-- before they are printed.
use elodin.Common.{
  ℕ, ◌+◌, ◌*◌, Bool, true, false, not, ◌&&◌, Option, none, some, List, [], ◌∷◌, leb, ltb, ◌==◌,
  if◌then◌else◌, Bytes, codes, Result, ok, err, ◌>>=◌,
}
use elodin.DnsWire.{parse_reply}
use elodin.Bench.Load.{Run, Unexpected, expect_rcode}

pub data Failure : Type 0 where
  load_failed : Failure
  unexpected : Unexpected → Failure

-- what `load` is asked for on a step of the ladder: the rate, the repeats, and the seconds if set
pub record Offered : Type 0 where
  pub rate : ℕ
  pub repeat : ℕ
  pub seconds : Option ℕ

pub record Step : Type 0 where
  pub rate : ℕ
  pub run : Run

unfoldable pub miss_ladder : List ℕ
miss_ladder = 2000 ∷ 5000 ∷ 10000 ∷ 25000 ∷ 50000 ∷ 75000 ∷ 100000 ∷ []

-- `run` of `missRow`: an rcode is expected of a report with answers
unfoldable pub run_step : (Offered → Result Failure Run) → ℕ → ℕ → Result Failure Step
unfolding expect_rcode
run_step load_at rate n = load_at (record { rate = rate; repeat = n; seconds = none }) >>= λ run.
    (if ltb 0 run.0.answered
      then elim (expect_rcode run.0 (codes "noerror")) [
        | ok _ ↦ ok (record { rate = rate; run = run })
        | err e ↦ err (unexpected e)
      ]
      else ok (record { rate = rate; run = run }))

unfoldable pub carried : Step → Bool
carried st =
    let r = st.run.0 in
    let asked = r.answered + r.errors in
    ltb 0 asked && (leb (1000 * r.errors) asked && leb (970 * st.rate) r.qps)

-- `lost`: all of the queries, or so many of so many
pub data Lost : Type 0 where
  lost_all : Lost
  lost_some : ℕ → ℕ → Step → Lost

unfoldable pub lost : Step → Lost
lost st =
    let asked = st.run.0.answered + st.run.0.errors in
    if asked == 0 then lost_all else lost_some st.run.0.errors asked st

pub data Row : Type 0 where
  under : Step → Lost → Row
  sustained : Step → Step → Option Lost → Row

-- the loop of `missRow` over the rates that are left, with the best step so far
unfoldable pub climb :
    (Offered → Result Failure Run) → Step → List ℕ → Result Failure (Step × Option Lost)
unfolding run_step carried lost
climb load_at best [] = ok (best, none)
climb load_at best (rate ∷ rates) = run_step load_at rate 1 >>= λ st.
    let higher = climb load_at st rates in
    if not (carried st) then ok (best, some (lost st)) else higher

-- `missRow` on a ladder: its first rate and the others
unfoldable pub miss_row : (Offered → Result Failure Run) → ℕ → List ℕ → Result Failure Row
unfolding run_step carried lost climb
miss_row load_at lowest rates =
    load_at (record { rate = lowest; repeat = 1; seconds = some 5 }) >>= λ _.
    run_step load_at lowest 0 >>= λ first.
    if not (carried first)
    then ok (under first (lost first))
    else (climb load_at first rates >>= λ top. ok (sustained top.0 first top.1))

-- what a round of `waitBlocked` brings: no connection, no answer in time, or an answer
pub data Poll : Type 0 where
  no_dial no_answer : Poll
  answered_by : Bytes → Poll

-- the last rcode seen, if any, and whether the wait is over
unfoldable pub poll : Poll → Option ℕ → Option ℕ × Bool
poll no_dial last = (last, false)
poll no_answer last = (last, false)
poll (answered_by msg) last = elim (parse_reply msg) [
  | err e ↦ (last, false)
  | ok r ↦ if r.rcode == 3 then (last, true) else (some r.rcode, false)
]

-- `waitBlocked` over the rounds before its deadline: the error names the last rcode
unfoldable pub wait_blocked : List Poll → Option ℕ → Result (Option ℕ) (Unit {0})
unfolding poll
wait_blocked [] last = err last
wait_blocked (p ∷ polls) last =
    let (seen, done) = poll p last in
    let later = wait_blocked polls seen in if done then ok tt else later
