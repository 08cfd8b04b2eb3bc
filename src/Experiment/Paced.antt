-- ===== src/Experiment/Paced.antt =====
-- bench/cmd/rrlexp/client.go: what the loops of pace, paceFlatOut and paceAt send.
use elodin.Common.{
  ℕ, zero, suc, ◌+◌, ◌-◌, ◌*◌, ◌/◌, ◌%◌, ◌≤◌, ◌<◌, ◌≡◌, refl, sym, ap, ◌∙◌, Bool, true, false,
  Bool-cases, inl, inr, if◌then◌else◌, leb, arith,
}
use elodin.Experiment.Credit.{one, nearest, per_tick}
use elodin.Experiment.Due.{paid, due, IsDue, due-IsDue}
use elodin.Experiment.Pace.{sends, pace_flat_out, spend, pace_at, pace}

-- `n` more sends after those that gave `r`
go_on {ℓ} : {S : Type ℓ} → (S → S × Bool) → ℕ → S × Bool → S × Bool
go_on send n (s, true) = sends send n s
go_on send n (s, false) = (s, false)

go_on-if {ℓ} :
    {S : Type ℓ} (send : S → S × Bool) (n : ℕ) (r : S × Bool)
    → (if r.1 then sends send n r.0 else (r.0, false)) ≡ go_on send n r
unfolding go_on
go_on-if send n (s, true) = refl
go_on-if send n (s, false) = refl

sends-suc {ℓ} :
    {S : Type ℓ} (send : S → S × Bool) (n : ℕ) (s : S)
    → sends send (suc n) s ≡ go_on send n (send s)
unfolding sends
sends-suc send n s = go_on-if send n (send s)

go_on-add {ℓ} :
    {S : Type ℓ} (send : S → S × Bool) (m n : ℕ) (r : S × Bool)
    → ((s : S) → sends send (m + n) s ≡ go_on send n (sends send m s))
    → go_on send (m + n) r ≡ go_on send n (go_on send m r)
unfolding go_on
go_on-add send m n (s, true) add = add s
go_on-add send m n (s, false) add = refl

sends-add {ℓ} :
    {S : Type ℓ} (send : S → S × Bool) (m n : ℕ) (s : S)
    → sends send (m + n) s ≡ go_on send n (sends send m s)
unfolding sends go_on
sends-add send zero n s = ap (λ k. sends send k s) (omega arith)
sends-add send (suc m) n s =
    ap (λ k. sends send k s) {y = suc (m + n)} (omega arith)
    ∙ sends-suc send (m + n) s
    ∙ go_on-add send m n (send s) (sends-add send m n)
    ∙ ap (go_on send n) (sym (sends-suc send m s))

-- the state after a round of pacing, and the rest of the loop
after {ℓ} : {S : Type ℓ} → (S → S) → S × Bool → S
after rest (s, true) = rest s
after rest (s, false) = s

after-if {ℓ} :
    {S : Type ℓ} (rest : S → S) (r : S × Bool) → (if r.1 then rest r.0 else r.0) ≡ after rest r
unfolding after
after-if rest (s, true) = refl
after-if rest (s, false) = refl

after-cong {ℓ} :
    {S : Type ℓ} (f g : S → S) (r : S × Bool) → ((s : S) → f s ≡ g s) → after f r ≡ after g r
unfolding after
after-cong f g (s, true) e = e s
after-cong f g (s, false) e = refl

after-go_on {ℓ} :
    {S : Type ℓ} (send : S → S × Bool) (n : ℕ) (r : S × Bool)
    → after (λ s. (sends send n s).0) r ≡ (go_on send n r).0
unfolding after go_on
after-go_on send n (s, true) = refl
after-go_on send n (s, false) = refl

sent_eq {ℓ} :
    {S : Type ℓ} (send : S → S × Bool) (m n : ℕ) (s : S)
    → m ≡ n
    → (sends send m s).0 ≡ (sends send n s).0
sent_eq send m n s e = ap (λ k. (sends send k s).0) e

flat_out-sends {ℓ} :
    {S : Type ℓ} (send : S → S × Bool) (rounds : ℕ) (s : S)
    → pace_flat_out send rounds s ≡ (sends send (64 * rounds) s).0
unfolding pace_flat_out sends
flat_out-sends send zero s = sent_eq send 0 (64 * 0) s (omega arith)
flat_out-sends send (suc rounds) s =
    after-if (pace_flat_out send rounds) (sends send 64 s)
    ∙ after-cong (pace_flat_out send rounds) (λ s'. (sends send (64 * rounds) s').0)
        (sends send 64 s) (flat_out-sends send rounds)
    ∙ after-go_on send (64 * rounds) (sends send 64 s)
    ∙ ap (λ r. r.0) (sym (sends-add send 64 (64 * rounds) s))
    ∙ sent_eq send (64 + 64 * rounds) (64 * suc rounds) s (omega arith)

-- a result of the inner loop: the sends that the credit pays for, and the rest of the credit
abbrev Spends {ℓ} : {S : Type ℓ} → ((S × Bool) × ℕ) → S × Bool → ℕ → Type ℓ
Spends r sent left = (r.0 ≡ sent) × (r.0.1 ≡ true → r.1 ≡ left)

spend_round {ℓ} : {S : Type ℓ} → (S → S × Bool) → ℕ → ℕ → S × Bool → (S × Bool) × ℕ
spend_round send fuel credit (s, true) = spend send fuel (credit - one) s
spend_round send fuel credit (s, false) = ((s, false), credit)

spend_round-if {ℓ} :
    {S : Type ℓ} (send : S → S × Bool) (fuel credit : ℕ) (r : S × Bool)
    → (if r.1 then spend send fuel (credit - one) r.0 else ((r.0, false), credit))
      ≡ spend_round send fuel credit r
unfolding spend_round
spend_round-if send fuel credit (s, true) = refl
spend_round-if send fuel credit (s, false) = refl

spend-suc {ℓ} :
    {S : Type ℓ} (send : S → S × Bool) (fuel credit : ℕ) (s : S)
    → leb one credit ≡ true
    → spend send (suc fuel) credit s ≡ spend_round send fuel credit (send s)
unfolding spend
spend-suc send fuel credit s h = rw h (spend_round-if send fuel credit (send s))

spend_round-sends {ℓ} :
    {S : Type ℓ} (send : S → S × Bool) (fuel credit n left : ℕ) (r : S × Bool)
    → ((s : S) → Spends (spend send fuel (credit - one) s) (sends send n s) left)
    → Spends (spend_round send fuel credit r) (go_on send n r) left
unfolding spend_round go_on
spend_round-sends send fuel credit n left (s, true) next = next s
spend_round-sends send fuel credit n left (s, false) next = (refl, λ h. cc)

credit_below : (credit : ℕ) → leb one credit ≡ false → (credit / one ≡ 0) × (credit % one ≡ credit)
credit_below credit h = ground arith

credit_above :
    (credit : ℕ)
    → leb one credit ≡ true
    → (credit / one ≡ suc ((credit - one) / one)) × (credit % one ≡ (credit - one) % one)
credit_above credit h = ground arith

spend-sends {ℓ} :
    {S : Type ℓ} (send : S → S × Bool) (fuel credit : ℕ) (s : S)
    → credit / one ≤ fuel
    → Spends (spend send fuel credit s) (sends send (credit / one) s) (credit % one)
unfolding spend sends
spend-sends send zero credit s le =
    let none_left : (credit / one ≡ 0) × (credit % one ≡ credit) = omega arith in
    rw (none_left.0, none_left.1) (refl, λ h. refl)
spend-sends send (suc fuel) credit s le = elim (Bool-cases (leb one credit)) [
  | inl h ↦
      let (quotient, remainder) = credit_above credit h in
      rw
        (
          spend-suc send fuel credit s h,
          quotient,
          sends-suc send ((credit - one) / one) s,
          remainder,
        )
        (spend_round-sends send fuel credit ((credit - one) / one) ((credit - one) % one) (send s)
          (λ s'. spend-sends send fuel (credit - one) s' (ground arith)))
  | inr h ↦
      let (quotient, remainder) = credit_below credit h in
      rw (spend, h, quotient, remainder) (refl, λ e. refl)
]

-- a tick: what the rest of the loop does after the sends of its credit
tick-after {ℓ} :
    {S : Type ℓ} (rest : ℕ → S → S) (r : (S × Bool) × ℕ) (sent : S × Bool) (left : ℕ)
    → Spends r sent left
    → (if r.0.1 then rest r.1 r.0.0 else r.0.0) ≡ after (rest left) sent
unfolding after
tick-after rest ((s, true), k) sent left (same, kept) = rw (sym same, kept refl) refl
tick-after rest ((s, false), k) sent left (same, kept) = rw (sym same) refl

pace_at-sends {ℓ} :
    {S : Type ℓ} (send : S → S × Bool) (tick ticks credit : ℕ) (s : S)
    → pace_at send tick ticks credit s ≡ (sends send (paid tick ticks credit) s).0
unfolding pace_at sends
pace_at-sends send tick zero credit s = refl
pace_at-sends send tick (suc ticks) credit s =
    let credit' = nearest (credit + tick) 1 in
    let now = credit' / one in
    let left = credit' % one in
    let more = paid tick ticks left in
    tick-after (λ k s'. pace_at send tick ticks k s') (spend send now credit' s) (sends send now s)
      left (spend-sends send now credit' s (omega arith))
    ∙ after-cong (pace_at send tick ticks left) (λ s'. (sends send more s').0) (sends send now s)
        (λ s'. pace_at-sends send tick ticks left s')
    ∙ after-go_on send more (sends send now s)
    ∙ ap (λ r. r.0) (sym (sends-add send now more s))

pub pace-due {ℓ} :
    {S : Type ℓ} (send : S → S × Bool) (rate rounds : ℕ) (s : S)
    → pace send rate rounds s ≡ (sends send (due rate rounds) s).0
unfolding pace
pace-due send zero rounds s = flat_out-sends send rounds s
pace-due send (suc rate) rounds s = pace_at-sends send (per_tick (suc rate)) rounds 0 s

-- Whatever a send does, `pace` makes its sends one after another until one fails. Flat out these are 64 for
-- each round. At a rate of up to a million, for fewer than 2^30 ticks, a thousand times their number is at
-- most the rate times the ticks, and is less than that by a thousand at most: the credit rounds, and so
-- the last send can come a tick late.
pub pace-sends {ℓ} :
    {S : Type ℓ} (send : S → S × Bool) (rate rounds : ℕ) (s : S)
    → rate ≤ 1000000
    → rounds < 1073741824
    → (pace send rate rounds s ≡ (sends send (due rate rounds) s).0)
      × IsDue rate rounds (due rate rounds)
pace-sends send rate rounds s small short =
    (pace-due send rate rounds s, due-IsDue rate rounds small short)
