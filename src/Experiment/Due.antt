-- ===== src/Experiment/Due.antt =====
-- bench/cmd/rrlexp/client.go: how many sends the credit of paceAt pays for.
use native.Mathlib.Nat.{mul-le-mul_left}
use elodin.Common.{ℕ, zero, suc, ◌+◌, ◌*◌, ◌/◌, ◌%◌, ◌≤◌, ◌<◌, ◌≡◌, refl, arith}
use elodin.Experiment.Credit.{one, nearest, per_tick}
use elodin.Experiment.Rounding.{nearest-close}

-- the sends that the ticks from a credit pay for
abbrev pub paid : ℕ → ℕ → ℕ → ℕ
paid tick zero credit = 0
paid tick (suc ticks) credit =
    nearest (credit + tick) 1 / one + paid tick ticks (nearest (credit + tick) 1 % one)

-- the sends that are due after so many rounds
abbrev pub due : ℕ → ℕ → ℕ
due zero rounds = 64 * rounds
due (suc rate) rounds = paid (per_tick (suc rate)) rounds 0

paid-bounds :
    (tick ticks credit : ℕ)
    → tick < 4700000000000000000000
    → credit < one
    → (paid tick ticks credit * one ≤ credit + ticks * tick + ticks * 1048576)
      × (credit + ticks * tick < paid tick ticks credit * one + one + ticks * 1048576)
paid-bounds tick zero credit small lt = (omega arith, omega arith)
paid-bounds tick (suc ticks) credit small lt =
    let (below, above) = nearest-close (credit + tick) 1 (omega arith) (omega arith) in
    let (low, high) =
      paid-bounds tick ticks (nearest (credit + tick) 1 % one) small (omega arith) in
    (omega arith, omega arith)

-- the number of sends is the rate's share of the ticks, without what is over, or one fewer where nothing is
abbrev pub IsDue : ℕ → ℕ → ℕ → Type 0
IsDue zero rounds n = n ≡ 64 * rounds
IsDue (suc rate) rounds n = (1000 * n ≤ rounds * suc rate) × (rounds * suc rate ≤ 1000 * n + 1000)

pub due-IsDue :
    (rate rounds : ℕ) → rate ≤ 1000000 → rounds < 1073741824 → IsDue rate rounds (due rate rounds)
unfolding per_tick
due-IsDue zero rounds small short = refl
due-IsDue (suc rate) rounds small short =
    let tick = per_tick (suc rate) in
    let (below, above) : (1000 * tick ≤ suc rate * one + 1000 * 1048576)
        × (suc rate * one ≤ 1000 * tick + 1000 * 1048576) =
      nearest-close (suc rate * one) 1000 (omega arith) (omega arith) in
    let (low, high) = paid-bounds tick rounds 0 (omega arith) (omega arith) in
    let below' = mul-le-mul_left rounds below in
    let above' = mul-le-mul_left rounds above in (omega arith, omega arith)
