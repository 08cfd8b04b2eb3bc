-- ===== src/Bench/Medians.antt =====
-- Which of the repeated runs is reported.
use elodin.Common.{
  ℕ, zero, suc, ◌+◌, ◌/◌, ◌≤◌, ◌<◌, ◌≡◌, refl, ap, sym, ◌∙◌, List, [], ◌∷◌, length, get_or, map,
  leb, ltb, count_if, Result, ok, ◌>>=◌, arith, All, Bool-cases, inl, inr,
}
use elodin.Hist.{insert, sort}
use elodin.Hist.Sorting.{sort-IsSorted, count_if-sort, length-sort}
use elodin.Hist.Ranks.{rank_sorted}
use elodin.Bench.Load.{Run, no_run, repeats, run_all, insert_run, sort_runs, middle_run, load}

abbrev pub qps_of : Run → ℕ
qps_of r = r.0.qps

run_all-ok {ℓ} :
    {E : Type ℓ} (load_once : ℕ → Result E Run) (runs : List Run) (i : ℕ)
    → ((j : ℕ) → j < length runs → load_once (i + j) ≡ ok (get_or runs j no_run))
    → run_all load_once (length runs) i ≡ ok runs
unfolding run_all
run_all-ok load_once [] i h = refl
run_all-ok load_once (r ∷ runs) i h =
    let here : load_once i ≡ ok r = ap load_once (omega arith) ∙ h 0 (omega arith) in
    let rest =
      run_all-ok load_once runs (i + 1)
        (λ j lt. ap load_once (omega arith) ∙ h (suc j) (omega arith)) in
    rw (run_all, here, rest) refl

map-insert_run :
    (r : Run) (runs : List Run) → map qps_of (insert_run r runs) ≡ insert r.0.qps (map qps_of runs)
unfolding insert_run insert
map-insert_run r [] = refl
map-insert_run r (s ∷ runs) = ground (arith, map-insert_run r runs)

map-sort_runs : (runs : List Run) → map qps_of (sort_runs runs) ≡ sort (map qps_of runs)
unfolding sort_runs sort
map-sort_runs [] = refl
map-sort_runs (r ∷ runs) =
    map-insert_run r (sort_runs runs) ∙ ap (insert r.0.qps) (map-sort_runs runs)

get_or-map : (runs : List Run) (i : ℕ) → (get_or runs i no_run).0.qps ≡ get_or (map qps_of runs) i 0
get_or-map [] i = refl
get_or-map (r ∷ runs) zero = refl
get_or-map (r ∷ runs) (suc i) = get_or-map runs i

length-map : (runs : List Run) → length (map qps_of runs) ≡ length runs
length-map [] = refl
length-map (r ∷ runs) = ap suc (length-map runs)

length-sort_runs : (runs : List Run) → length (sort_runs runs) ≡ length runs
length-sort_runs runs =
    sym (length-map (sort_runs runs))
    ∙ ap length (map-sort_runs runs)
    ∙ length-sort (map qps_of runs)
    ∙ length-map runs

-- the throughput of the run in the middle, by the throughputs alone
middle_qps :
    (runs : List Run)
    → (middle_run (sort_runs runs)).0.qps ≡ get_or (sort (map qps_of runs)) (length runs / 2) 0
unfolding middle_run
middle_qps runs =
    get_or-map (sort_runs runs) (length (sort_runs runs) / 2)
    ∙ ap (λ l. get_or l (length (sort_runs runs) / 2) 0) (map-sort_runs runs)
    ∙ ap (λ n. get_or (sort (map qps_of runs)) (n / 2) 0) (length-sort_runs runs)

-- one of the runs, but for the spread
abbrev IsOf : List Run → Run → Type 0
IsOf runs r = (i : ℕ) × (i < length runs) × (r.0 ≡ (get_or runs i no_run).0)

All-index : (runs : List Run) → All (IsOf runs) runs
All-index [] = tt
All-index (r ∷ runs) = ((0, omega arith, refl), All-later runs (All-index runs))
  where
    All-later : (l : List Run) → All (IsOf runs) l → All (IsOf (r ∷ runs)) l
    All-later [] a = tt
    All-later (s ∷ l) ((i, lt, e), a) = ((suc i, omega arith, e), All-later l a)

All-insert_run :
    (runs : List Run) (r : Run) (l : List Run)
    → IsOf runs r
    → All (IsOf runs) l
    → All (IsOf runs) (insert_run r l)
unfolding insert_run
All-insert_run runs r [] p a = (p, tt)
All-insert_run runs r (s ∷ l) p a = elim (Bool-cases (leb r.0.qps s.0.qps)) [
  | inl le ↦ rw (insert_run, le) (p, a)
  | inr gt ↦ rw (insert_run, gt) (a.0, All-insert_run runs r l p a.1)
]

All-sort_runs : (runs l : List Run) → All (IsOf runs) l → All (IsOf runs) (sort_runs l)
unfolding sort_runs
All-sort_runs runs [] a = tt
All-sort_runs runs (r ∷ l) a = All-insert_run runs r (sort_runs l) a.0 (All-sort_runs runs l a.1)

get_or-IsOf :
    (runs l : List Run) (i : ℕ) → All (IsOf runs) l → i < length l → IsOf runs (get_or l i no_run)
get_or-IsOf runs [] i a h = absurd (omega arith)
get_or-IsOf runs (r ∷ l) zero a h = a.0
get_or-IsOf runs (r ∷ l) (suc i) a h = get_or-IsOf runs l i a.1 (omega arith)

middle_run-All :
    (runs l : List Run) → 0 < length l → All (IsOf runs) l → IsOf runs (middle_run (sort_runs l))
unfolding middle_run
middle_run-All runs l h a =
    get_or-IsOf runs (sort_runs l) (length (sort_runs l) / 2) (All-sort_runs runs l a)
      (omega (arith, length-sort_runs l))

-- Where each of the runs that `load` makes succeeds, it returns the report of one of them, and its
-- throughput is the median: more than half of the runs, the halves rounded down, have at most it, and
-- at most half have less.
pub load-median {ℓ} :
    {E : Type ℓ} (flag asked : ℕ) (load_once : ℕ → Result E Run) (runs : List Run)
    → length runs ≡ repeats flag asked
    → ((i : ℕ) → i < length runs → load_once i ≡ ok (get_or runs i no_run))
    → (med : Run) × (load flag asked load_once ≡ ok med)
      × ((i : ℕ) × (i < length runs) × (med.0 ≡ (get_or runs i no_run).0))
      × (length runs / 2 < count_if (λ v. leb v med.0.qps) (map qps_of runs))
      × (count_if (λ v. ltb v med.0.qps) (map qps_of runs) ≤ length runs / 2)
unfolding load repeats
load-median flag asked load_once runs many fine =
    let med = middle_run (sort_runs runs) in
    let speeds = map qps_of runs in
    let some_run : 0 < length runs = ground (arith, many) in
    let from_runs = middle_run-All runs runs some_run (All-index runs) in
    let (above, below) =
      rank_sorted (sort speeds) (length runs / 2) (sort-IsSorted speeds)
        (omega (arith, length-sort speeds, length-map runs)) in
    (
      med,
      ap (λ n. run_all load_once n 0 >>= λ l. ok (middle_run (sort_runs l))) (sym many)
          ∙ ap (λ r. r >>= λ l. ok (middle_run (sort_runs l)))
              (run_all-ok load_once runs 0 (λ j lt. ap load_once (omega arith) ∙ fine j lt)),
      from_runs,
      rw
          (
            middle_qps runs,
            sym (count_if-sort (λ v. leb v (get_or (sort speeds) (length runs / 2) 0)) speeds),
          )
          above,
      rw
          (
            middle_qps runs,
            sym (count_if-sort (λ v. ltb v (get_or (sort speeds) (length runs / 2) 0)) speeds),
          )
          below,
    )
