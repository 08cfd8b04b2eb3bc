-- ===== src/Experiment/Planned.antt =====
-- What the arms of the experiment are.
use elodin.Common.{◌≡◌, refl, Bool, true, false, List, map, All, ltb, if◌then◌else◌}
use elodin.Text.{str_eq, contains}
use elodin.Experiment.Matrix.{Arm}
use elodin.Experiment.Naming.{AllDistinct}
use elodin.Experiment.Loads.{Flags}
use elodin.Experiment.Holders.{handshake_arms}
use elodin.Experiment.Plan.{soak_arms, all_arms, matrix}
use elodin.Experiment.Placing.{
  is_placed, are_placed, distinct, distinct→AllDistinct, are_placed→All,
}
use elodin.Experiment.Pairing.{HasLimited, all_arms-HasLimited, soak_arms-HasLimited}

module _ (f : Flags) where
  soak_arms-placed : are_placed (soak_arms f) ≡ true
  unfolding soak_arms str_eq contains
  soak_arms-placed = refl

  all_arms-distinct : distinct (map (λ a. a.name) (all_arms f)) ≡ true
  unfolding all_arms handshake_arms str_eq
  all_arms-distinct = refl

  all_arms-placed : are_placed (all_arms f) ≡ true
  unfolding all_arms handshake_arms str_eq contains
  all_arms-placed = refl

-- names that are told apart, clients that are placed as the names say, and an arm with the limiter for each
-- without it
abbrev pub IsPlan : Flags → List Arm → Type 0
IsPlan f arms =
    AllDistinct (map (λ a. a.name) arms)
    × All (λ a. is_placed a ≡ true) arms
    × All (HasLimited f) arms

-- Whatever the flags are, the arms of `matrix` have names of their own, and the two clients of an arm have
-- addresses of their own, in two prefixes if its name says "other-prefix" and in one if it says
-- "same-prefix"; and every arm that runs without the limiter, but for those with an outage, is with its
-- settings, its attacker and its victim also an arm that runs with the limiter as the flags set it.
pub matrix-IsPlan : (f : Flags) → IsPlan f (matrix f)
unfolding matrix soak_arms
matrix-IsPlan f = step (ltb 0 f.soak)
  where
    step : (b : Bool) → IsPlan f (if b then soak_arms f else all_arms f)
    step true =
        ((tt, tt), are_placed→All (soak_arms f) (soak_arms-placed f), soak_arms-HasLimited f)
    step false = (
      distinct→AllDistinct (map (λ a. a.name) (all_arms f)) (all_arms-distinct f),
      are_placed→All (all_arms f) (all_arms-placed f),
      all_arms-HasLimited f,
    )
