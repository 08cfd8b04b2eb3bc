-- ===== src/Experiment/Baselines.antt =====
-- Which reading the window of a row of the soak begins at.
use elodin.Common.{
  ◌≡◌, refl, sym, ap, ◌∙◌, Bool, true, false, List, [], ◌∷◌, ◌++◌, All, any, length, get_or,
  if◌then◌else◌, Bool-cases, inl, inr, ◌||◌,
}
use elodin.Experiment.Recovery.{Sample, good_sample}
use elodin.Experiment.Readings.{good_sample-ends}
use elodin.Experiment.Series.{soak_windows}

abbrev pub is_ok : Sample → Bool
is_ok s = s.ok

last_ok : Sample → List Sample → Sample
last_ok prev [] = prev
last_ok prev (s ∷ samples) = last_ok (if s.ok then s else prev) samples

soak_windows-last_ok :
    (prev s d d' : Sample) (before behind : List Sample)
    → get_or (soak_windows prev (before ++ s ∷ behind)) (length before) (d, d')
      ≡ (s, last_ok prev before)
unfolding soak_windows last_ok
soak_windows-last_ok prev s d d' [] behind = refl
soak_windows-last_ok prev s d d' (r ∷ before) behind =
    soak_windows-last_ok (if r.ok then r else prev) s d d' before behind

any-All : (samples : List Sample) → any is_ok samples ≡ false → All (λ r. r.ok ≡ false) samples
any-All [] h = tt
any-All (s ∷ samples) h =
    (or_left s.ok (any is_ok samples) h, any-All samples (or_right s.ok (any is_ok samples) h))
  where
    or_left : (b c : Bool) → (b || c) ≡ false → b ≡ false
    or_left true c h = h
    or_left false c h = refl

    or_right : (b c : Bool) → (b || c) ≡ false → c ≡ false
    or_right true c h = absurd cc
    or_right false c h = h

last_ok-none :
    (prev : Sample) (samples : List Sample)
    → any is_ok samples ≡ false
    → last_ok prev samples ≡ prev
unfolding last_ok
last_ok-none prev [] h = refl
last_ok-none prev (s ∷ samples) h =
    let (missed, rest) = any-All (s ∷ samples) h in
    ap (λ b. last_ok (if b then s else prev) samples) missed
    ∙ last_ok-none prev samples (ap (λ b. b || any is_ok samples) (sym missed) ∙ h)

-- the last reading that succeeded, where one did
abbrev LastIs : List Sample → Sample → Type 0
LastIs samples l =
    (xs : List Sample) × (k : Sample) × (ys : List Sample) × (samples ≡ xs ++ k ∷ ys)
    × (k.ok ≡ true)
    × All (λ r. r.ok ≡ false) ys
    × (l ≡ k)

last_ok-LastIs :
    (prev : Sample) (samples : List Sample)
    → any is_ok samples ≡ true
    → LastIs samples (last_ok prev samples)
unfolding last_ok
last_ok-LastIs prev [] h = absurd cc
last_ok-LastIs prev (s ∷ samples) h = elim (Bool-cases (any is_ok samples)) [
  | inl later ↦
      let (xs, k, ys, split, fine, missed, same) =
        last_ok-LastIs (if s.ok then s else prev) samples later in
      (s ∷ xs, k, ys, ap (◌∷◌ s) split, fine, missed, same)
  | inr none_later ↦
      let here : s.ok ≡ true = only_left s.ok (any is_ok samples) none_later h in
      (
        [],
        s,
        samples,
        refl,
        here,
        any-All samples none_later,
        ap (λ b. last_ok (if b then s else prev) samples) here ∙ last_ok-none s samples none_later,
      )
]
  where
    only_left : (b c : Bool) → c ≡ false → (b || c) ≡ true → b ≡ true
    only_left true c e h = refl
    only_left false c e h = absurd cc

last_ok-good_sample :
    (prev : Sample) (samples : List Sample)
    → last_ok prev samples ≡ (if any is_ok samples then good_sample samples true else prev)
last_ok-good_sample prev samples = elim (Bool-cases (any is_ok samples)) [
  | inr none_of ↦
      last_ok-none prev samples none_of
      ∙ sym (ap (λ b. if b then good_sample samples true else prev) none_of)
  | inl some_of ↦
      let (xs, k, ys, split, fine, missed, same) = last_ok-LastIs prev samples some_of in
      same
      ∙ sym (good_sample-ends xs ys k true fine missed)
      ∙ ap (λ l. good_sample l true) (sym split)
      ∙ sym (ap (λ b. if b then good_sample samples true else prev) some_of)
]

-- In the table of a soak, the window of a reading begins at the last reading before it that succeeded,
-- the one that `goodSample` finds among them, and where none did at the first reading of the arm, whether
-- that one succeeded or not.
pub soak_windows-good_sample :
    (first s d d' : Sample) (before behind : List Sample)
    → get_or (soak_windows first (before ++ s ∷ behind)) (length before) (d, d')
      ≡ (s, if any is_ok before then good_sample before true else first)
soak_windows-good_sample first s d d' before behind =
    soak_windows-last_ok first s d d' before behind
    ∙ ap (λ x. (s, x)) (last_ok-good_sample first before)
