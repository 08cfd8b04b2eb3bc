-- ===== src/Hist.antt =====
-- bench/internal/hist/hist.go: the latencies of a run and their percentiles.
--
-- A sample is a number of nanoseconds; the tools record differences of a monotonic clock, which are
-- not negative. A quantile `q` is the function that takes `n` to `int(q * float64(n))`: floating point
-- is not modelled, and nothing is assumed of the function. `slices.Sort` is insertion sort.
-- The recorder's mutex makes every operation atomic, so a run is a sequence of them.
pub mod Sorting
pub mod Ranks
use elodin.Common.{
  ℕ, ◌-◌, List, [], ◌∷◌, ◌++◌, Bool, true, false, leb, if◌then◌else◌, length, map, replicate,
  get_or,
}

pub record Recorder : Type 0 where
  pub samples : List ℕ

abbrev pub Quantile : Type 0
Quantile = ℕ → ℕ

unfoldable pub new : Recorder
new = record { samples = [] }

unfoldable pub add_batch : Recorder → List ℕ → Recorder
add_batch r s = record { samples = r.samples ++ s }

unfoldable pub len : Recorder → ℕ
len r = length r.samples

-- `slices.Sort`
unfoldable pub insert : ℕ → List ℕ → List ℕ
insert x [] = x ∷ []
insert x (y ∷ ys) = let later = y ∷ insert x ys in if leb x y then x ∷ y ∷ ys else later

unfoldable pub sort : List ℕ → List ℕ
unfolding insert
sort [] = []
sort (x ∷ xs) = insert x (sort xs)

-- the index that a quantile picks among `n` samples
unfoldable pub pick : Quantile → ℕ → ℕ
pick q n = if leb n (q n) then n - 1 else q n

percentiles_of : List ℕ → List ℕ → List Quantile → Recorder × List ℕ
unfolding sort pick
percentiles_of samples [] qs = (record { samples = samples }, map (λ _. 0) qs)
percentiles_of samples (x ∷ xs) qs =
    let sorted = sort samples in
    (record { samples = sorted }, map (λ q. get_or sorted (pick q (length sorted)) 0) qs)

-- the samples are left sorted
unfoldable pub percentiles : Recorder → List Quantile → Recorder × List ℕ
unfolding percentiles_of
percentiles r qs = percentiles_of r.samples r.samples qs
