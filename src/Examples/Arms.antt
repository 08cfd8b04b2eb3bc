-- ===== src/Examples/Arms.antt =====
-- The DoH client, the handshake flood and the readings of an arm at concrete inputs.
use elodin.Common.{
  false, map, get_or, any, ◌++◌, ℕ, arith, ◌+◌, ◌-◌, ◌==◌, leb, not, if◌then◌else◌, ◌≡◌, refl, true,
  List, [], ◌∷◌, codes,
}
use elodin.Experiment.Client.{no_stats, ClientSpec, name}
use elodin.Experiment.Doh.{
  Exchange, no_status, status_of, no_queries, mark, work_step, work_steps, doh_queries,
}
use elodin.Experiment.Exchanges.{IsSettled, Adds, doh_queries-IsSettled}
use elodin.Experiment.Naming.{AllDistinct, work_steps-AllDistinct}
use elodin.Text.{str_eq}
use elodin.Experiment.Recovery.{
  good_sample, Sample, no_sample, slack, Outage, recovered, recovered_text, recover_loop,
  recover_round, recover_switch, is_healthy, within, never_lost, not_within_arm, before_return,
}
use elodin.Experiment.Series.{soak_windows}
use elodin.Experiment.Baselines.{is_ok, soak_windows-good_sample}
use elodin.Experiment.Verdicts.{some_lost, back_at, windows, recovered-windows}
use elodin.Examples.Clients.{spec, noerror}

abbrev exchanges : List (ℕ × ℕ × Exchange)
exchanges =
    (0, 1, status_of 200 noerror true 40)
    ∷ (1, 2, no_status)
    ∷ (0, 3, status_of 503 [] true 50)
    ∷ []

doh_queries-IsSettled_example :
    IsSettled true (doh_queries spec (codes "a") true exchanges no_stats)
    × Adds exchanges no_stats (doh_queries spec (codes "a") true exchanges no_stats)
doh_queries-IsSettled_example =
    doh_queries-IsSettled spec (codes "a") true exchanges no_stats
      (refl, refl, refl, omega arith, omega arith, refl)

-- workers 0 and 1 both add before either reads the counter
shared_number : (work_steps (0 ∷ 1 ∷ 0 ∷ 1 ∷ []) no_queries).asked ≡ (1, 2) ∷ (0, 2) ∷ []
unfolding work_steps work_step mark
shared_number = refl

-- a reading at a time, with so many queries of the attacker asked and answered
abbrev reading : ℕ → ℕ → ℕ → Sample
reading at offered full = record no_sample {
  at = at;
  ok = true;
  attacker_offered = offered;
  attacker_full = full;
}

-- the upstream goes at 1 s and returns at 3 s; the answers are back at 5 s
abbrev outage : Outage
outage = record { down_at = 1000000000; up_at = 3000000000 }

abbrev readings : List Sample
readings =
    reading 1000000000 100 100
    ∷ reading 2000000000 200 120
    ∷ record no_sample { at = 3000000000 }
    ∷ reading 4000000000 300 130
    ∷ reading 5000000000 400 230
    ∷ []

back_two_seconds_after : recovered outage (reading 500000000 0 0) readings ≡ within 2000000000
unfolding recovered recovered_text recover_loop recover_round recover_switch is_healthy
back_two_seconds_after = refl

recovered-windows_example : recovered outage (reading 500000000 0 0) readings ≡ (
    let ws = windows (reading 500000000 0 0) readings in
    if not (some_lost outage ws)
    then never_lost
    else if back_at outage ws == 0
    then not_within_arm
    else if leb (back_at outage ws) (outage.up_at + slack)
    then before_return (back_at outage ws)
    else within (back_at outage ws - outage.up_at))
recovered-windows_example =
    recovered-windows outage (reading 500000000 0 0) readings
      (omega arith, (omega arith, (omega arith, (omega arith, (omega arith, tt)))))

-- the first reading of the arm failed, and the one behind the next
abbrev missed : List Sample
missed = reading 1000000000 100 100 ∷ record no_sample { at = 2000000000 } ∷ []

soak_windows-good_sample_example :
    get_or
      (soak_windows no_sample (missed ++ reading 3000000000 300 300 ∷ []))
      2
      (no_sample, no_sample)
    ≡ (reading 3000000000 300 300, if any is_ok missed then good_sample missed true else no_sample)
soak_windows-good_sample_example =
    soak_windows-good_sample no_sample (reading 3000000000 300 300) no_sample no_sample missed []

-- the window of the first row begins at a reading that failed
missed_baseline :
    soak_windows no_sample (reading 1000000000 100 100 ∷ [])
    ≡ (reading 1000000000 100 100, no_sample) ∷ []
unfolding soak_windows
missed_baseline = refl

abbrev unique : ClientSpec
unique = record spec { qmode = codes "unique" }

unique_is_own : str_eq unique.qmode (codes "fixed") ≡ false
unfolding str_eq
unique_is_own = refl

work_steps-AllDistinct_example :
    AllDistinct (
      map (λ q. name unique q.0 q.1 (codes "a")) (work_steps (0 ∷ 1 ∷ 0 ∷ 1 ∷ []) no_queries).asked)
work_steps-AllDistinct_example =
    work_steps-AllDistinct unique (codes "a") (0 ∷ 1 ∷ 0 ∷ 1 ∷ []) unique_is_own
