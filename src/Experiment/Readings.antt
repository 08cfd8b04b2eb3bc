-- ===== src/Experiment/Readings.antt =====
-- Which readings of an arm goodSample and sampleAt pick.
use elodin.Common.{
  ap, sym, ◌∙◌, ℕ, zero, suc, ◌+◌, ◌-◌, ◌≤◌, ◌<◌, ◌≡◌, refl, Bool, true, false, ◌&&◌, List, [], ◌∷◌,
  ◌++◌, leb, if◌then◌else◌, All, length, length-append, append_assoc, get_or, arith,
}
use native.Mathlib.Decide.{dec_lt}
use elodin.Experiment.Recovery.{
  Sample, no_sample, slack, sample_no, good_from, good_sample, sample_at_loop,
}

get_or-middle {ℓ} :
    {A : Type ℓ} (d : A) (xs ys : List A) (x : A) → get_or (xs ++ x ∷ ys) (length xs) d ≡ x
get_or-middle d [] ys x = refl
get_or-middle d (z ∷ xs) ys x = get_or-middle d xs ys x

get_or-All {ℓ κ} :
    {A : Type ℓ} (d : A) (P : A → Type κ) (xs ys : List A) (j : ℕ)
    → All P xs
    → j < length xs
    → P (get_or (xs ++ ys) j d)
get_or-All d P [] ys j a h = absurd (omega arith)
get_or-All d P (x ∷ xs) ys zero a h = a.0
get_or-All d P (x ∷ xs) ys (suc j) a h = get_or-All d P xs ys j a.1 (omega arith)

get_or-behind {ℓ κ} :
    {A : Type ℓ} (d : A) (P : A → Type κ) (xs ys : List A) (j : ℕ)
    → All P ys
    → length xs ≤ j
    → j < length xs + length ys
    → P (get_or (xs ++ ys) j d)
get_or-behind d P [] [] j a h k = absurd (omega arith)
get_or-behind d P [] (y ∷ ys) zero a h k = a.0
get_or-behind d P [] (y ∷ ys) (suc j) a h k =
    get_or-behind d P [] ys j a.1 (omega arith) (omega arith)
get_or-behind d P (x ∷ xs) ys zero a h k = absurd (omega arith)
get_or-behind d P (x ∷ xs) ys (suc j) a h k =
    get_or-behind d P xs ys j a (omega arith) (omega arith)

good_from-step :
    (samples : List Sample) (last : Bool) (left i : ℕ)
    → (sample_no samples last i).ok ≡ false
    → good_from samples last (suc left) i ≡ good_from samples last left (i + 1)
unfolding good_from
good_from-step samples last left i failed = rw (good_from, failed) refl

good_from-stop :
    (samples : List Sample) (last : Bool) (left i : ℕ)
    → (sample_no samples last i).ok ≡ true
    → good_from samples last (suc left) i ≡ sample_no samples last i
unfolding good_from
good_from-stop samples last left i found =
    ap (λ b. if b then sample_no samples last i else good_from samples last left (i + 1)) found

-- the loop stops at the first round that finds a reading
good_from-first :
    (samples : List Sample) (last : Bool) (left i k : ℕ)
    → i ≤ k
    → k < i + left
    → ((j : ℕ) → i ≤ j → j < k → (sample_no samples last j).ok ≡ false)
    → (sample_no samples last k).ok ≡ true
    → good_from samples last left i ≡ sample_no samples last k
unfolding good_from
good_from-first samples last zero i k h h' none_before found = absurd (omega arith)
good_from-first samples last (suc left) i k h h' none_before found = elim (dec_lt i k) [
  | yes lt ↦
      good_from-step samples last left i (none_before i (omega arith) lt)
      ∙ good_from-first samples last left (i + 1) k (omega arith) (omega arith)
          (λ j le below. none_before j (omega arith) below) found
  | no nlt ↦
      let same : k ≡ i = omega arith in
      good_from-stop samples last left i
        (ap (λ n. (sample_no samples last n).ok) (sym same) ∙ found)
      ∙ ap (sample_no samples last) (sym same)
]

sample_no-first :
    (before behind : List Sample) (s : Sample)
    → sample_no (before ++ s ∷ behind) false (length before) ≡ s
unfolding sample_no
sample_no-first before behind s = get_or-middle no_sample before behind s

sample_no-before :
    (before behind : List Sample) (s : Sample) (j : ℕ)
    → All (λ r. r.ok ≡ false) before
    → j < length before
    → (sample_no (before ++ s ∷ behind) false j).ok ≡ false
unfolding sample_no
sample_no-before before behind s j a h =
    get_or-All no_sample (λ r. r.ok ≡ false) before (s ∷ behind) j a h

sample_no-last :
    (before behind : List Sample) (s : Sample)
    → sample_no (before ++ s ∷ behind) true (length behind) ≡ s
unfolding sample_no
sample_no-last before behind s =
    let index : length (before ++ s ∷ behind) - 1 - length behind ≡ length before =
      omega (arith, length-append before (s ∷ behind)) in
    rw index (get_or-middle no_sample before behind s)

sample_no-behind :
    (before behind : List Sample) (s : Sample) (j : ℕ)
    → All (λ r. r.ok ≡ false) behind
    → j < length behind
    → (sample_no (before ++ s ∷ behind) true j).ok ≡ false
unfolding sample_no
sample_no-behind before behind s j a h = rw (sym (append_assoc before (s ∷ []) behind)) (
    get_or-behind no_sample (λ r. r.ok ≡ false) (before ++ s ∷ []) behind
      (length ((before ++ s ∷ []) ++ behind) - 1 - j) a
      (omega (arith, length-append before (s ∷ []), length-append (before ++ s ∷ []) behind))
      (omega (arith, length-append before (s ∷ []), length-append (before ++ s ∷ []) behind)))

-- Among readings of which `s` succeeded, and none before it did, or none behind it if the last is asked
-- for, `goodSample` is `s`.
pub good_sample-ends :
    (before behind : List Sample) (s : Sample) (last : Bool)
    → s.ok ≡ true
    → All (λ r. r.ok ≡ false) (if last then behind else before)
    → good_sample (before ++ s ∷ behind) last ≡ s
unfolding good_sample
good_sample-ends before behind s false fine a =
    good_from-first (before ++ s ∷ behind) false (length (before ++ s ∷ behind)) 0 (length before)
      (omega arith) (omega (arith, length-append before (s ∷ behind)))
      (λ j le below. sample_no-before before behind s j a below)
      (ap (λ r. r.ok) (sample_no-first before behind s) ∙ fine)
    ∙ sample_no-first before behind s
good_sample-ends before behind s true fine a =
    good_from-first (before ++ s ∷ behind) true (length (before ++ s ∷ behind)) 0 (length behind)
      (omega arith) (omega (arith, length-append before (s ∷ behind)))
      (λ j le below. sample_no-behind before behind s j a below)
      (ap (λ r. r.ok) (sample_no-last before behind s) ∙ fine)
    ∙ sample_no-last before behind s

-- With readings of which `s` is the first that succeeded no earlier than 200 ms before a time,
-- `sampleAt` is `s`.
sample_at_loop-first :
    (all before behind : List Sample) (s : Sample) (t : ℕ)
    → All (λ r. (r.ok && leb t (r.at + slack)) ≡ false) before
    → (s.ok && leb t (s.at + slack)) ≡ true
    → sample_at_loop all (before ++ s ∷ behind) t ≡ s
unfolding sample_at_loop
sample_at_loop-first all [] behind s t a found =
    ap (λ b. if b then s else sample_at_loop all behind t) found
sample_at_loop-first all (r ∷ before) behind s t (passed, a) found =
    ap (λ b. if b then r else sample_at_loop all (before ++ s ∷ behind) t) passed
    ∙ sample_at_loop-first all before behind s t a found
