-- ===== src/Examples/Figures.antt =====
-- The percentiles and the counters.
use mathlib.Core.List.Perm
use elodin.Common.{ℕ, ◌/◌, ◌<◌, ◌≤◌, ◌≡◌, refl, true, List, [], ◌∷◌, count_if, leb, ltb, min}
use elodin.Hist.{Quantile, new, insert, sort, pick, percentiles}
use elodin.Hist.Sorting.{IsSorted}
use elodin.Hist.Ranks.{percentiles_rank, percentiles-perm, add_all}
use elodin.LoadGen.Runs.{Worker, answered_with, failed, dialled, gave_up}

-- A median: half the number of samples.
abbrev half : Quantile
half n = n / 2

abbrev all_of : Quantile
all_of n = n

percentiles_rank_example :
    let (r, values) = percentiles (record { samples = 30 ∷ 10 ∷ 20 ∷ [] }) (half ∷ all_of ∷ []) in
    (v : ℕ) × (values ≡ v ∷ (percentiles (record { samples = 30 ∷ 10 ∷ 20 ∷ [] }) (all_of ∷ [])).1)
    × (min (half 3) 2 < count_if (λ y. leb y v) (30 ∷ 10 ∷ 20 ∷ []))
    × (count_if (λ y. ltb y v) (30 ∷ 10 ∷ 20 ∷ []) ≤ min (half 3) 2)
    × IsSorted r.samples
percentiles_rank_example = percentiles_rank 30 (10 ∷ 20 ∷ []) half (all_of ∷ [])

median :
    (percentiles (record { samples = 30 ∷ 10 ∷ 20 ∷ [] }) (half ∷ all_of ∷ [])).1 ≡ 20 ∷ 30 ∷ []
unfolding percentiles sort insert pick
median = refl

percentiles-perm_example :
    percentiles (add_all new ((3 ∷ 1 ∷ []) ∷ (2 ∷ []) ∷ [])) (half ∷ [])
    ≡ percentiles (add_all new ((2 ∷ []) ∷ (3 ∷ 1 ∷ []) ∷ [])) (half ∷ [])
percentiles-perm_example =
    percentiles-perm ((3 ∷ 1 ∷ []) ∷ (2 ∷ []) ∷ []) ((2 ∷ []) ∷ (3 ∷ 1 ∷ []) ∷ []) (half ∷ [])
      (Perm.swap (2 ∷ []) (3 ∷ 1 ∷ []) [])

-- The first client answers twice and redials once; the second measures one answer and gives up.
abbrev two_workers : List Worker
two_workers =
    record {
      client = 0;
      rounds = answered_with 0 5 true ∷ failed dialled ∷ answered_with 3 7 true ∷ [];
    }
    ∷ record { client = 1; rounds = answered_with 0 9 true ∷ failed gave_up ∷ [] }
    ∷ []
