-- ===== src/Bench/Load.antt =====
-- bench/cmd/bench/scenarios.go: repeated runs of the load generator and the checks on what they report.
--
-- What one run of the generator reports is input. A number of queries a second is in thousandths, and
-- a percentile in microseconds, a length of time in milliseconds; a ratio is its numerator and its denominator. `slices.SortFunc` is
-- insertion sort: the order it leaves runs of equal throughput in is not documented.
use elodin.Common.{
  ℕ, zero, suc, ◌+◌, ◌-◌, ◌*◌, ◌/◌, ◌%◌, Bool, true, false, ◌&&◌, Option, none, some, List, [], ◌∷◌,
  ◌++◌, length, get_or, leb, ltb, ◌==◌, if◌then◌else◌, Bytes, codes, Result, ok, err, ◌>>=◌,
}
use elodin.Text.{str_eq, decimal}

-- what the generator reports, and what is true of the server meanwhile
pub record Report : Type 0 where
  pub transport : Bytes
  pub clients : ℕ
  pub concurrency : ℕ
  pub answered : ℕ
  pub errors : ℕ
  pub rcodes : List (Bytes × ℕ)
  pub seconds : ℕ
  pub qps : ℕ
  pub p50 : ℕ
  pub p99 : ℕ
  pub min_per_client : ℕ
  pub max_per_client : ℕ
  pub reconnects : ℕ

pub record ServerSample : Type 0 where
  pub peak_rss : ℕ
  pub cpu : ℕ
  pub max_threads : ℕ
  pub spread : Option (ℕ × ℕ)

unfoldable pub cpu_per_query : ServerSample → ℕ → ℕ
cpu_per_query s answered = if answered == 0 then 0 else s.cpu / answered

abbrev pub Run : Type 0
Run = Report × ServerSample

abbrev pub no_run : Run
no_run = (
  record {
    transport = [];
    clients = 0;
    concurrency = 0;
    answered = 0;
    errors = 0;
    rcodes = [];
    seconds = 0;
    qps = 0;
    p50 = 0;
    p99 = 0;
    min_per_client = 0;
    max_per_client = 0;
    reconnects = 0;
  },
  record { peak_rss = 0; cpu = 0; max_threads = 0; spread = none },
)

-- how often `load` runs: what the row asks for, or the flag where it asks for nothing, and at least once
unfoldable pub repeats : ℕ → ℕ → ℕ
repeats flag asked = let n = if asked == 0 then flag else asked in if ltb n 1 then 1 else n

-- the loop of `load` with so many runs left, of which the next is run `i`: an error ends it
unfoldable pub run_all {ℓ} : {E : Type ℓ} → (ℕ → Result E Run) → ℕ → ℕ → Result E (List Run)
run_all load_once zero i = ok []
run_all load_once (suc left) i =
    let rest = run_all load_once left (i + 1) in load_once i >>= λ r. rest >>= λ runs. ok (r ∷ runs)

unfoldable pub insert_run : Run → List Run → List Run
insert_run r [] = r ∷ []
insert_run r (s ∷ runs) =
    let later = s ∷ insert_run r runs in if leb r.0.qps s.0.qps then r ∷ s ∷ runs else later

unfoldable pub sort_runs : List Run → List Run
unfolding insert_run
sort_runs [] = []
sort_runs (r ∷ runs) = insert_run r (sort_runs runs)

-- the gap between the slowest and the fastest of sorted runs, over the slowest
unfoldable pub spread_of : List Run → Option (ℕ × ℕ)
spread_of runs =
    let lo = (get_or runs 0 no_run).0.qps in
    let hi = (get_or runs (length runs - 1) no_run).0.qps in
    if ltb 0 lo then some (hi - lo, lo) else none

-- the end of `load`
unfoldable pub middle_run : List Run → Run
unfolding spread_of
middle_run runs =
    let med = get_or runs (length runs / 2) no_run in
    (med.0, record med.1 { spread = spread_of runs })

unfoldable pub load {ℓ} : {E : Type ℓ} → ℕ → ℕ → (ℕ → Result E Run) → Result E Run
unfolding repeats run_all sort_runs middle_run
load flag asked load_once =
    run_all load_once (repeats flag asked) 0 >>= λ runs. ok (middle_run (sort_runs runs))

-- `r.Rcodes[want]`
unfoldable pub rcode_count : Bytes → List (Bytes × ℕ) → ℕ
unfolding str_eq
rcode_count want [] = 0
rcode_count want ((name, n) ∷ rcodes) =
    let later = rcode_count want rcodes in if str_eq name want then n else later

pub data Unexpected : Type 0 where
  nothing_answered : Unexpected
  only : ℕ → ℕ → Unexpected

unfoldable pub expect_rcode : Report → Bytes → Result Unexpected (Unit {0})
unfolding rcode_count
expect_rcode r want =
    let got = rcode_count want r.rcodes in
    if r.answered == 0
    then err nothing_answered
    else if ltb (got * 10) (r.answered * 9)
    then err (only got r.answered)
    else ok tt

-- the loop of `thousands` over the digits that are left, with whether one was written
unfoldable pub commas : Bool → Bytes → Bytes
commas begun [] = []
commas begun (c ∷ s) =
    let rest = commas true s in
    if begun && length (c ∷ s) % 3 == 0 then b',' ∷ c ∷ rest else c ∷ rest

-- `thousands` of a whole number
unfoldable pub thousands : ℕ → Bytes
unfolding commas decimal
thousands v = commas false (decimal v)

unfoldable pub answered_of : Report → ℕ → Bytes
unfolding thousands
answered_of r n =
    if r.answered == n
    then codes "all"
    else codes "**" ++ thousands r.answered ++ codes " of " ++ thousands n ++ codes "**"

-- `timedOut` in compare.go
unfoldable pub timed_out : Report → Bytes
unfolding thousands
timed_out r =
    if ltb 0 r.reconnects
    then codes " (**"
      ++ thousands r.errors
      ++ codes " failed, "
      ++ thousands r.reconnects
      ++ codes " reconnects**)"
    else if ltb 0 r.errors
    then codes " (**" ++ thousands r.errors ++ codes " timed out**)"
    else []

unfoldable pub label : Bytes → Bytes
unfolding str_eq
label t =
    if str_eq t (codes "udp")
    then codes "UDP"
    else if str_eq t (codes "tcp")
    then codes "TCP"
    else if str_eq t (codes "dot")
    then codes "DoT"
    else if str_eq t (codes "doh1")
    then codes "DoH over HTTP/1.1"
    else if str_eq t (codes "doh2")
    then codes "DoH over HTTP/2"
    else t
