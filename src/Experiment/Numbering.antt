-- ===== src/Experiment/Numbering.antt =====
-- The numbers that the workers of a DoH client give their queries, under any schedule.
use elodin.Common.{
  ℕ, ◌+◌, ◌≤◌, ◌≡◌, ◌≢◌, ◌⊎◌, inl, inr, Bool, true, false, List, [], ◌∷◌, All, ◌==◌, if◌then◌else◌,
  Bool-cases, arith,
}
use elodin.Experiment.Doh.{Workers, no_queries, mark, work_step, work_steps}

-- two queries of one worker, or of two, that differ
abbrev pub Differs : ℕ × ℕ → ℕ × ℕ → Type 0
Differs a b = (a.0 ≢ b.0) ⊎ (a.1 ≢ b.1)

abbrev pub AllDiffer : List (ℕ × ℕ) → Type 0
AllDiffer [] = Unit
AllDiffer (q ∷ qs) = All (λ r. Differs q r) qs × AllDiffer qs

-- the number of a query sent is at most the counter, and below it once its worker has added again
abbrev IsPast : ℕ → (ℕ → Bool) → ℕ × ℕ → Type 0
IsPast seq added q = q.1 + (if added q.0 then 1 else 0) ≤ seq

IsPast-add :
    (i seq : ℕ) (added : ℕ → Bool) (qs : List (ℕ × ℕ))
    → added i ≡ false
    → All (IsPast seq added) qs
    → All (IsPast (seq + 1) (mark added i true)) qs
unfolding mark
IsPast-add i seq added [] h a = tt
IsPast-add i seq added (q ∷ qs) h (p, a) = (ground arith, IsPast-add i seq added qs h a)

IsPast-Differs :
    (i seq : ℕ) (added : ℕ → Bool) (q : ℕ × ℕ)
    → added i ≡ true
    → IsPast seq added q
    → Differs (i, seq) q
IsPast-Differs i seq added q h p = elim (Bool-cases (q.0 == i)) [
  | inl same ↦
      let eq : q.0 ≡ i = ground arith in
      inr (λ e. let on : added q.0 ≡ true = rw eq h in ground arith)
  | inr other ↦ inl (λ e. ground arith)
]

IsPast-ask :
    (i seq : ℕ) (added : ℕ → Bool) (qs : List (ℕ × ℕ))
    → added i ≡ true
    → All (IsPast seq added) qs
    → All (IsPast seq (mark added i false)) qs × All (λ r. Differs (i, seq) r) qs
unfolding mark
IsPast-ask i seq added [] h a = (tt, tt)
IsPast-ask i seq added (q ∷ qs) h (p, a) =
    let (past, differ) = IsPast-ask i seq added qs h a in
    ((ground arith, past), (IsPast-Differs i seq added q h p, differ))

IsPast-mark : (i seq : ℕ) (added : ℕ → Bool) → IsPast seq (mark added i false) (i, seq)
unfolding mark
IsPast-mark i seq added = ground arith

-- what holds of the workers between their steps
abbrev IsNumbered : Workers → Type 0
IsNumbered w = All (IsPast w.seq w.added) w.asked × AllDiffer w.asked

work_step-IsNumbered : (i : ℕ) (w : Workers) → IsNumbered w → IsNumbered (work_step i w)
unfolding work_step
work_step-IsNumbered i w (past, differ) = elim (Bool-cases (w.added i)) [
  | inl added ↦
      let (still, new) = IsPast-ask i w.seq w.added w.asked added past in
      rw (work_step, added) ((IsPast-mark i w.seq w.added, still), (new, differ))
  | inr not_yet ↦ rw (work_step, not_yet) (IsPast-add i w.seq w.added w.asked not_yet past, differ)
]

steps-IsNumbered :
    (schedule : List ℕ) (w : Workers) → IsNumbered w → IsNumbered (work_steps schedule w)
unfolding work_steps
steps-IsNumbered [] w v = v
steps-IsNumbered (i ∷ schedule) w v =
    steps-IsNumbered schedule (work_step i w) (work_step-IsNumbered i w v)

-- In whatever order the workers of a client take the steps of adding to their shared counter and of
-- sending the query of the number they then read, no two queries have the same worker and number.
pub work_steps-AllDiffer : (schedule : List ℕ) → AllDiffer (work_steps schedule no_queries).asked
work_steps-AllDiffer schedule = (steps-IsNumbered schedule no_queries (tt, tt)).1
