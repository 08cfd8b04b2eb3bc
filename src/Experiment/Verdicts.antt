-- ===== src/Experiment/Verdicts.antt =====
-- What the verdicts on an outage mean, in terms of the windows between two readings.
use elodin.Common.{
  ℕ, ◌+◌, ◌-◌, ◌*◌, ◌<◌, ◌≡◌, refl, ap, sym, ◌∙◌, Bool, true, false, not, ◌&&◌, ◌||◌, List, [], ◌∷◌,
  ltb, leb, ◌==◌, if◌then◌else◌, All, Bool-cases, inl, inr, arith,
}
use mathlib.Core.Path.{subst}
use elodin.Experiment.Recovery.{
  Sample, slack, Outage, Recovering, is_healthy, recover_switch, recover_round, recover_loop,
  never_lost, not_within_arm, before_return, within, recovered_text, recovered,
}

-- two readings, one after the other, between which queries that need the upstream were asked
abbrev pub Window : Type 0
Window = Sample × Sample

abbrev pub asked : Window → ℕ
asked w = w.1.attacker_offered - w.0.attacker_offered

abbrev pub answered : Window → ℕ
answered w = w.1.attacker_full - w.0.attacker_full

-- the windows of an arm: each reading that succeeded with the one before it, where queries were asked
abbrev pub windows : Sample → List Sample → List Window
windows prev [] = []
windows prev (s ∷ samples) =
    let skipped = windows prev samples in
    let later = windows s samples in
    if not s.ok then skipped else if asked (prev, s) == 0 then later else (prev, s) ∷ later

-- a window that begins after the upstream went, or 200 ms before that
abbrev pub counts : Outage → Window → Bool
counts o w = leb o.down_at (w.0.at + slack)

-- a window that counts and answers less than 95% of what it asks
abbrev pub fails : Outage → Window → Bool
fails o w = counts o w && not (leb (95 * asked w) (100 * answered w))

abbrev pub some_fails : Outage → List Window → Bool
some_fails o [] = false
some_fails o (w ∷ ws) = fails o w || some_fails o ws

-- when the first window ends that counts and from which on none fails; 0 if there is none
abbrev pub back_at : Outage → List Window → ℕ
back_at o [] = 0
back_at o (w ∷ ws) = if counts o w && not (some_fails o (w ∷ ws)) then w.1.at else back_at o ws

-- some window fails that begins before the upstream returns, less 200 ms
abbrev pub some_lost : Outage → List Window → Bool
some_lost o [] = false
some_lost o (w ∷ ws) = (fails o w && ltb (w.0.at + slack) o.up_at) || some_lost o ws

judge : Outage → Window → ℕ × Bool → ℕ × Bool
judge o w (at, lost) =
    if fails o w
    then (0, lost || ltb (w.0.at + slack) o.up_at)
    else if counts o w
    then (if at == 0 then w.1.at else at, lost)
    else (at, lost)

judge_all : Outage → List Window → ℕ × Bool → ℕ × Bool
judge_all o [] p = p
judge_all o (w ∷ ws) p = judge_all o ws (judge o w p)

abbrev kept : Recovering → ℕ × Bool
kept r = (r.at, r.lost)

-- a round on a window
round-judge :
    (o : Outage) (s : Sample) (r : Recovering)
    → s.ok ≡ true
    → (asked (r.prev, s) == 0) ≡ false
    → (kept (recover_round o s r) ≡ judge o (r.prev, s) (kept r)) × ((recover_round o s r).prev ≡ s)
unfolding recover_round recover_switch is_healthy judge
round-judge o s r fine some_asked = ground arith

round-skips : (o : Outage) (s : Sample) (r : Recovering) → s.ok ≡ false → recover_round o s r ≡ r
unfolding recover_round
round-skips o s r failed = rw failed refl

round-idles :
    (o : Outage) (s : Sample) (r : Recovering)
    → s.ok ≡ true
    → (asked (r.prev, s) == 0) ≡ true
    → recover_round o s r ≡ record r { prev = s }
unfolding recover_round
round-idles o s r fine idle = rw (fine, idle) refl

windows-idles :
    (prev s : Sample) (samples : List Sample)
    → s.ok ≡ true
    → (asked (prev, s) == 0) ≡ true
    → windows prev (s ∷ samples) ≡ windows s samples
windows-idles prev s samples fine idle = simp (fine, idle)

windows-adds :
    (prev s : Sample) (samples : List Sample)
    → s.ok ≡ true
    → (asked (prev, s) == 0) ≡ false
    → windows prev (s ∷ samples) ≡ (prev, s) ∷ windows s samples
windows-adds prev s samples fine some_asked = simp (fine, some_asked)

windows-skips :
    (prev s : Sample) (samples : List Sample)
    → s.ok ≡ false
    → windows prev (s ∷ samples) ≡ windows prev samples
windows-skips prev s samples failed = simp failed

loop-judge :
    (o : Outage) (samples : List Sample) (r : Recovering)
    → kept (recover_loop o samples r) ≡ judge_all o (windows r.prev samples) (kept r)
unfolding recover_loop judge_all
loop-judge o [] r = refl
loop-judge o (s ∷ samples) r = elim (Bool-cases s.ok) [
  | inr failed ↦
      ap (λ x. kept (recover_loop o samples x)) (round-skips o s r failed)
      ∙ loop-judge o samples r
      ∙ ap (λ ws. judge_all o ws (kept r)) (sym (windows-skips r.prev s samples failed))
  | inl fine ↦ elim (Bool-cases (asked (r.prev, s) == 0)) [
    | inl idle ↦
        ap (λ x. kept (recover_loop o samples x)) (round-idles o s r fine idle)
        ∙ loop-judge o samples (record r { prev = s })
        ∙ ap (λ ws. judge_all o ws (kept r)) (sym (windows-idles r.prev s samples fine idle))
    | inr some_asked ↦
        let (same, now) = round-judge o s r fine some_asked in
        loop-judge o samples (recover_round o s r)
        ∙ ap (λ x. judge_all o (windows x samples) (kept (recover_round o s r))) now
        ∙ ap (judge_all o (windows s samples)) same
        ∙ ap (λ ws. judge_all o ws (kept r)) (sym (windows-adds r.prev s samples fine some_asked))
  ]
]

-- the disjunction over a list with one more member
or_step : (lost now later : Bool) → ((lost || now) || later) ≡ (lost || (now || later))
or_step false now later = refl
or_step true now later = refl

judge-bad :
    (o : Outage) (w : Window) (at : ℕ) (lost : Bool)
    → fails o w ≡ true
    → judge o w (at, lost) ≡ (0, (lost || ltb (w.0.at + slack) o.up_at))
unfolding judge
judge-bad o w at lost bad = rw bad refl

judge-counted :
    (o : Outage) (w : Window) (at : ℕ) (lost : Bool)
    → fails o w ≡ false
    → counts o w ≡ true
    → judge o w (at, lost) ≡ (if at == 0 then w.1.at else at, lost)
unfolding judge
judge-counted o w at lost good counted = rw (good, counted) refl

judge-passed :
    (o : Outage) (w : Window) (at : ℕ) (lost : Bool)
    → fails o w ≡ false
    → counts o w ≡ false
    → judge o w (at, lost) ≡ (at, lost)
unfolding judge
judge-passed o w at lost good passed = rw (good, passed) refl

judge_all-back :
    (o : Outage) (ws : List Window) (at : ℕ) (lost : Bool)
    → All (λ w. 0 < w.1.at) ws
    → ((judge_all o ws (at, lost)).0
        ≡ (if not (at == 0) && not (some_fails o ws) then at else back_at o ws))
      × ((judge_all o ws (at, lost)).1 ≡ (lost || some_lost o ws))
unfolding judge_all
judge_all-back o [] at lost a = ground arith
judge_all-back o (w ∷ ws) at lost (pos, a) = elim (Bool-cases (fails o w)) [
  | inl bad ↦
      let (back, missed) = judge_all-back o ws 0 (lost || ltb (w.0.at + slack) o.up_at) a in
      rw (judge_all, judge-bad o w at lost bad, bad)
        (
          ground (arith, back),
          missed ∙ or_step lost (ltb (w.0.at + slack) o.up_at) (some_lost o ws),
        )
  | inr good ↦ elim (Bool-cases (counts o w)) [
    | inl counted ↦
        let (back, missed) = judge_all-back o ws (if at == 0 then w.1.at else at) lost a in
        rw (judge_all, judge-counted o w at lost good counted, good, counted)
          (ground (arith, back), missed)
    | inr passed ↦
        let (back, missed) = judge_all-back o ws at lost a in
        rw (judge_all, judge-passed o w at lost good passed, good, passed)
          (ground (arith, back), missed)
  ]
]

-- a window ends with a reading of the list
windows-later :
    (prev : Sample) (samples : List Sample)
    → All (λ s. 0 < s.at) samples
    → All (λ w. 0 < w.1.at) (windows prev samples)
windows-later prev [] a = tt
windows-later prev (s ∷ samples) (pos, a) = elim (Bool-cases s.ok) [
  | inr failed ↦
      subst (All (λ w. 0 < w.1.at)) (sym (windows-skips prev s samples failed))
        (windows-later prev samples a)
  | inl fine ↦ elim (Bool-cases (asked (prev, s) == 0)) [
    | inl idle ↦
        subst (All (λ w. 0 < w.1.at)) (sym (windows-idles prev s samples fine idle))
          (windows-later s samples a)
    | inr some_asked ↦
        subst (All (λ w. 0 < w.1.at)) (sym (windows-adds prev s samples fine some_asked))
          (pos, windows-later s samples a)
  ]
]

-- Where every reading but the first is at a time after 0, the verdict on the recovery is that of the
-- windows between the readings that succeeded in which queries were asked: a window fails if it begins
-- no earlier than 200 ms before the upstream went and answers less than 95% of what it asks. Nothing
-- was lost if no window fails that begins earlier than 200 ms before the return; otherwise the answers
-- are back when the first window ends from which on no window fails, if one does.
pub recovered-windows :
    (o : Outage) (first : Sample) (samples : List Sample)
    → All (λ s. 0 < s.at) samples
    → recovered o first samples ≡ (
        let ws = windows first samples in
        if not (some_lost o ws)
        then never_lost
        else if back_at o ws == 0
        then not_within_arm
        else if leb (back_at o ws) (o.up_at + slack)
        then before_return (back_at o ws)
        else within (back_at o ws - o.up_at))
unfolding recovered recovered_text
recovered-windows o first samples a =
    let start : Recovering = record { at = 0; lost = false; prev = first } in
    let ws = windows first samples in
    let judged = loop-judge o samples start in
    let (back, missed) = judge_all-back o ws 0 false (windows-later first samples a) in
    ap (λ p. recovered_text o p.0 p.1) (judged ∙ pair_eq (judge_all o ws (0, false)) back missed)
  where
    pair_eq : (p : ℕ × Bool) {x : ℕ} {y : Bool} → p.0 ≡ x → p.1 ≡ y → p ≡ (x, y)
    pair_eq p e f = λ i. (e i, f i)
