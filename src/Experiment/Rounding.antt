-- ===== src/Experiment/Rounding.antt =====
-- How far a float64 of Credit is from what it stands for.
use elodin.Common.{
  ℕ, zero, suc, ◌+◌, ◌*◌, ◌/◌, ◌%◌, ◌≤◌, ◌<◌, ◌≡◌, refl, arith, ltb, true, false, Bool, Bool-cases,
  if◌then◌else◌, inl, inr, ◌⊎◌, ◌==◌,
}
use native.Mathlib.Nat.{div-add-mod, mod-lt, mul-pos, mul-le-mul_left, lt_of_mul-lt-mul_left}
use elodin.Experiment.Credit.{ulp, round_to, nearest}

-- the distance is that of the start, or it is one that 53 bits at `n / d` need
ulp-fits : (fuel u n d : ℕ) → (ulp fuel u n d ≡ u) ⊎ (d * (ulp fuel u n d * 4503599627370496) ≤ n)
unfolding ulp
ulp-fits zero u n d = inl refl
ulp-fits (suc fuel) u n d = elim (Bool-cases (ltb n (d * (u * 9007199254740992)))) [
  | inl fits ↦ rw (ulp, fits) (inl refl)
  | inr large ↦ rw (ulp, large) (coarser (ulp fuel (2 * u) n d) (ulp-fits fuel (2 * u) n d) large)
]
  where
    coarser :
        (r : ℕ)
        → (r ≡ 2 * u) ⊎ (d * (r * 4503599627370496) ≤ n)
        → ltb n (d * (u * 9007199254740992)) ≡ false
        → (r ≡ u) ⊎ (d * (r * 4503599627370496) ≤ n)
    coarser r (inl same) large = inr (rw same (ground arith))
    coarser r (inr fits) large = inr fits

ulp-pos : (fuel u n d : ℕ) → 0 < u → 0 < ulp fuel u n d
unfolding ulp
ulp-pos zero u n d h = h
ulp-pos (suc fuel) u n d h = ground (arith, ulp-pos fuel (2 * u) n d (omega arith))

-- what is rounded down or up is near, for a quotient `q` by `d * u` and its remainder `r`
down-close :
    (u n d q r : ℕ)
    → d * u * q + r ≡ n
    → r < d * u
    → (d * (q * u) ≤ n + d * u) × (n ≤ d * (q * u) + d * u)
down-close u n d q r e h = omega arith

up-close :
    (u n d q r : ℕ)
    → d * u * q + r ≡ n
    → r < d * u
    → (d * ((q + 1) * u) ≤ n + d * u) × (n ≤ d * ((q + 1) * u) + d * u)
up-close u n d q r e h = omega arith

round_to-close :
    (u n d : ℕ) → 0 < d * u → (d * round_to u n d ≤ n + d * u) × (n ≤ d * round_to u n d + d * u)
unfolding round_to
round_to-close u n d h =
    let whole = div-add-mod n (d * u) in
    let part = mod-lt n h in
    let down = down-close u n d (n / (d * u)) (n % (d * u)) whole part in
    let up = up-close u n d (n / (d * u)) (n % (d * u)) whole part in
    let q = n / (d * u) in
    either_way (q * u) _ (ltb (2 * (n % (d * u))) (d * u)) down (
      either_way ((q + 1) * u) _ (ltb (d * u) (2 * (n % (d * u)))) up
        (either_way (q * u) ((q + 1) * u) (q % 2 == 0) down up))
  where
    either_way :
        (x y : ℕ) (b : Bool)
        → (d * x ≤ n + d * u) × (n ≤ d * x + d * u)
        → (d * y ≤ n + d * u) × (n ≤ d * y + d * u)
        → (d * (if b then x else y) ≤ n + d * u) × (n ≤ d * (if b then x else y) + d * u)
    either_way x y true p q = p
    either_way x y false p q = q

-- a distance of so many units at most, below 2^72 units
fine :
    (u n d : ℕ)
    → (u ≡ 1) ⊎ (d * (u * 4503599627370496) ≤ n)
    → 0 < d
    → n < d * 4722366482869645213696
    → u ≤ 1048576
fine u n d (inl same) pos h = omega arith
fine u n d (inr fits) pos h =
    let less : d * (u * 4503599627370496) < d * 4722366482869645213696 = omega arith in
    let few = lt_of_mul-lt-mul_left d less in omega arith

-- `nearest` is at most 2^20 units from the quotient, where this is below 2^72 units
pub nearest-close :
    (n d : ℕ)
    → 0 < d
    → n < d * 4722366482869645213696
    → (d * nearest n d ≤ n + d * 1048576) × (n ≤ d * nearest n d + d * 1048576)
unfolding nearest
nearest-close n d pos h =
    near (ulp 80 1 n d) (ulp-pos 80 1 n d (omega arith)) (fine _ n d (ulp-fits 80 1 n d) pos h)
  where
    near :
        (u : ℕ)
        → 0 < u
        → u ≤ 1048576
        → (d * round_to u n d ≤ n + d * 1048576) × (n ≤ d * round_to u n d + d * 1048576)
    near u some_u small =
        let (below, above) = round_to-close u n d (mul-pos pos some_u) in
        let wide = mul-le-mul_left d small in (omega arith, omega arith)
