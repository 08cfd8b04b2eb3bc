-- ===== src/Experiment/Credit.antt =====
-- bench/cmd/rrlexp/client.go: the floating-point numbers of paceAt.
--
-- `perTick` and `credit` are float64. They are held as numbers of units of 2^-62: a rate is at least 1, so
-- `perTick` is at least 0.001 and neither it nor a sum of it is finer than that, and a credit less 1 is
-- exact. A quotient and a sum are rounded to 53 bits, to the nearest and from halfway to the even.
use elodin.Common.{ℕ, zero, suc, ◌+◌, ◌*◌, ◌/◌, ◌%◌, ◌==◌, ltb, if◌then◌else◌}

-- 1.0
abbrev pub one : ℕ
one = 4611686018427387904

-- the distance between the numbers of 53 bits where `n / d` is, from `u` up; a fuel of 80 is enough below
-- 2^133 units
unfoldable pub ulp : ℕ → ℕ → ℕ → ℕ → ℕ
ulp zero u n d = u
ulp (suc fuel) u n d =
    let coarser = ulp fuel (2 * u) n d in if ltb n (d * (u * 9007199254740992)) then u else coarser

-- the multiple of `u` that is nearest to `n / d`
unfoldable pub round_to : ℕ → ℕ → ℕ → ℕ
round_to u n d =
    let down = n / (d * u) * u in
    let up = (n / (d * u) + 1) * u in
    if ltb (2 * (n % (d * u))) (d * u)
    then down
    else if ltb (d * u) (2 * (n % (d * u)))
    then up
    else if n / (d * u) % 2 == 0
    then down
    else up

-- `n / d` as a float64
unfoldable pub nearest : ℕ → ℕ → ℕ
unfolding ulp round_to
nearest n d = round_to (ulp 80 1 n d) n d

-- `float64(rate) / 1000.0`
unfoldable pub per_tick : ℕ → ℕ
unfolding nearest
per_tick rate = nearest (rate * one) 1000
