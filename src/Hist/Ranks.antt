-- ===== src/Hist/Ranks.antt =====
-- What a percentile says of the samples, and that the order in which clients report does not matter.
use mathlib.Core.List.{Perm, flatten}
use elodin.Common.{
  ℕ, zero, suc, ◌≤◌, ◌<◌, ◌≡◌, refl, sym, ap, ◌∙◌, List, [], ◌∷◌, ◌++◌, append_assoc, append-nil,
  leb, ltb, length, arith, All, count_if, map, get_or, min,
}
use elodin.Hist.{Recorder, Quantile, new, add_batch, sort, pick, percentiles, percentiles_of}
use elodin.Hist.Sorting.{IsSorted, sort-IsSorted, count_if-sort, length-sort, sort-flatten}

pub pick-lt : (q : Quantile) (n : ℕ) → 0 < n → pick q n < n
unfolding pick
pick-lt q n h = ground arith

-- the index is the quantile's, or the last one where that lies beyond the samples
pick-min : (q : Quantile) (n : ℕ) → pick q (suc n) ≡ min (q (suc n)) n
unfolding pick
pick-min q n = ground arith

at_most-All : (v : ℕ) (s : List ℕ) → All (λ y. v ≤ y) s → count_if (λ y. ltb y v) s ≡ 0
at_most-All v [] h = refl
at_most-All v (y ∷ s) h = ground (arith, at_most-All v s h.1)

All-get_or : (x : ℕ) (s : List ℕ) (i : ℕ) → All (λ y. x ≤ y) s → i < length s → x ≤ get_or s i 0
All-get_or x [] i h p = absurd (omega arith)
All-get_or x (y ∷ s) zero h p = h.0
All-get_or x (y ∷ s) (suc i) h p = All-get_or x s i h.1 (omega arith)

-- In a sorted list, more than `i` samples are at most the one at `i`, and at most `i` are below it.
pub rank_sorted :
    (s : List ℕ) (i : ℕ)
    → IsSorted s
    → i < length s
    → (i < count_if (λ y. leb y (get_or s i 0)) s) × (count_if (λ y. ltb y (get_or s i 0)) s ≤ i)
rank_sorted [] i h p = absurd (omega arith)
rank_sorted (x ∷ s) zero h p = ground (arith, at_most-All x s h.0)
rank_sorted (x ∷ s) (suc i) h p =
    ground (arith, rank_sorted s i h.1 (omega arith), All-get_or x s i h.0 (omega arith))

-- The sorted list's entry at the picked index, which is what `Percentiles` returns for `q`.
abbrev pub quantile_of : List ℕ → Quantile → ℕ
quantile_of samples q = get_or (sort samples) (pick q (length samples)) 0

pub percentiles-quantiles :
    (x : ℕ) (xs : List ℕ) (qs : List Quantile)
    → percentiles (record { samples = x ∷ xs }) qs
      ≡ (record { samples = sort (x ∷ xs) }, map (quantile_of (x ∷ xs)) qs)
unfolding percentiles percentiles_of
percentiles-quantiles x xs qs = ap (λ (n : ℕ). report n) (length-sort (x ∷ xs))
  where
    report : ℕ → Recorder × List ℕ
    report n = (
      record { samples = sort (x ∷ xs) },
      map (λ (q : Quantile). get_or (sort (x ∷ xs)) (pick q n) 0) qs,
    )

-- Where there are samples, the value that `Percentiles` returns for a quantile is the one at an index:
-- more samples than the index are at most it, and at most that many are below it. The index is what the
-- quantile gives for the number of samples, or that of the last sample where this is less. The other
-- quantiles' values follow, and the recorder's samples are left sorted.
pub percentiles_rank :
    (x : ℕ) (xs : List ℕ) (q : Quantile) (qs : List Quantile)
    → let samples = x ∷ xs in
      let (r, values) = percentiles (record { samples = samples }) (q ∷ qs) in
      (v : ℕ) × (values ≡ v ∷ (percentiles (record { samples = samples }) qs).1)
      × (min (q (length samples)) (length xs) < count_if (λ y. leb y v) samples)
      × (count_if (λ y. ltb y v) samples ≤ min (q (length samples)) (length xs))
      × IsSorted r.samples
percentiles_rank x xs q qs =
    let samples = x ∷ xs in
    let v = quantile_of samples q in
    let (many, few) =
      rank_sorted (sort samples) (pick q (length samples)) (sort-IsSorted samples)
        (omega (arith, length-sort samples, pick-lt q (length samples) (omega arith))) in
    (
      v,
      rw (percentiles-quantiles x xs (q ∷ qs), percentiles-quantiles x xs qs),
      rw (sym (pick-min q (length xs)), sym (count_if-sort (λ y. leb y v) samples)) many,
      rw (sym (pick-min q (length xs)), sym (count_if-sort (λ y. ltb y v) samples)) few,
      rw (percentiles-quantiles x xs (q ∷ qs)) (sort-IsSorted samples),
    )

-- A run: the clients hand their batches over one after the other.
abbrev pub add_all : Recorder → List (List ℕ) → Recorder
add_all r [] = r
add_all r (b ∷ bs) = add_all (add_batch r b) bs

samples-add_all :
    (bs : List (List ℕ)) (r : Recorder) → (add_all r bs).samples ≡ r.samples ++ flatten bs
unfolding add_batch flatten
samples-add_all [] r = sym (append-nil r.samples)
samples-add_all (b ∷ bs) r =
    samples-add_all bs (add_batch r b) ∙ append_assoc r.samples b (flatten bs)

from_sorted : List ℕ → List Quantile → Recorder × List ℕ
from_sorted [] qs = (record { samples = [] }, map (λ _. 0) qs)
from_sorted (y ∷ ys) qs =
    (record { samples = y ∷ ys }, map (λ q. get_or (y ∷ ys) (pick q (length (y ∷ ys))) 0) qs)

from_sorted-cons :
    (s : List ℕ) (n : ℕ) (qs : List Quantile)
    → length s ≡ suc n
    → from_sorted s qs ≡ (record { samples = s }, map (λ q. get_or s (pick q (length s)) 0) qs)
unfolding from_sorted
from_sorted-cons [] n qs h = absurd (omega arith)
from_sorted-cons (y ∷ ys) n qs h = refl

percentiles-from_sorted :
    (s : List ℕ) (qs : List Quantile) → percentiles_of s s qs ≡ from_sorted (sort s) qs
percentiles-from_sorted [] qs = unfold percentiles_of from_sorted sort in refl
percentiles-from_sorted (x ∷ xs) qs =
    unfold percentiles_of in
    sym (from_sorted-cons (sort (x ∷ xs)) (length xs) qs (length-sort (x ∷ xs)))

-- A run's percentiles, and the samples left behind, do not depend on the order in which the clients'
-- batches reach the recorder.
pub percentiles-perm :
    (bs cs : List (List ℕ)) (qs : List Quantile)
    → Perm bs cs
    → percentiles (add_all new bs) qs ≡ percentiles (add_all new cs) qs
unfolding percentiles new
percentiles-perm bs cs qs h =
    percentiles-from_sorted (add_all new bs).samples qs
    ∙ (ap (λ (s : List ℕ). from_sorted (sort s) qs) (samples-add_all bs new)
        ∙ (ap (λ (s : List ℕ). from_sorted s qs) (sort-flatten h)
            ∙ (ap (λ (s : List ℕ). from_sorted (sort s) qs) (sym (samples-add_all cs new))
                ∙ sym (percentiles-from_sorted (add_all new cs).samples qs))))
