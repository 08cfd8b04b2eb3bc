-- ===== src/Examples/Plans.antt =====
-- The arms of the experiment with the flags as they are by default.
use elodin.Common.{◌≡◌, refl, length}
use elodin.Experiment.Loads.{Flags}
use elodin.Experiment.Plan.{matrix}
use elodin.Experiment.Planned.{IsPlan, matrix-IsPlan}

abbrev flags : Flags
flags = record {
  flood_rate = 20000;
  victim_rate = 50;
  rps = 500;
  slip = 2;
  soak = 0;
  soak_sample = 30000000000;
}

matrix-IsPlan_example : IsPlan flags (matrix flags)
matrix-IsPlan_example = matrix-IsPlan flags

matrix_size : length (matrix flags) ≡ 50
unfolding matrix
matrix_size = refl
