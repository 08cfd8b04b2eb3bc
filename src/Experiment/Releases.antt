-- ===== src/Experiment/Releases.antt =====
-- What an arm leaves behind.
use elodin.Common.{
  ℕ, ◌≡◌, refl, ap, ◌∙◌, Bool, true, false, not, Option, none, some, List, ◌∷◌, if◌then◌else◌,
  Bytes, Result, ok, err, is_none, arith, ◌⊎◌, inl, inr,
}
use elodin.UnitEnv
use elodin.UnitEnv.{check}
use elodin.Bench.Servers.{Refusal, Probe, wait_ready, stop}
use elodin.Bench.Lifetimes.{stop_first}
use elodin.Experiment.Client.{ClientSpec, Stats}
use elodin.Experiment.Matrix.{FailSpec, Arm, Row}
use elodin.Experiment.Arms.{
  ArmError, Mocks, Boot, Window, stop_outage, start_outage, come_up, boot_process, start_server,
  wait_outage, row_of, run_server, run_arm, no_port, no_certificate, not_written, no_mock, exited,
}

-- a start that fails leaves what there was, and one that does not the process it was granted as well
abbrev Starts : Option ℕ → List ℕ → Result ArmError ℕ × List ℕ → Type 0
Starts granted live r = elim r.0 [
  | err e ↦ r.1 ≡ live
  | ok pid ↦ (granted ≡ some pid) × (r.1 ≡ pid ∷ live)
]

come_up-Starts :
    (pid : ℕ) (ready : Result Refusal (Unit {0})) (checked : Result UnitEnv.Error (Unit {0}))
    (live : List ℕ)
    → Starts (some pid) live (come_up pid ready checked (pid ∷ live))
unfolding come_up
come_up-Starts pid (err e) checked live = stop_first pid live
come_up-Starts pid (ok u) (err e) live = stop_first pid live
come_up-Starts pid (ok u) (ok u') live = (refl, refl)

boot_process-Starts :
    (unit : List Bytes) (process : Option ℕ) (probes : List Probe) (environ : Bytes) (live : List ℕ)
    → Starts process live (boot_process unit process probes environ live)
unfolding boot_process
boot_process-Starts unit none probes environ live = refl
boot_process-Starts unit (some pid) probes environ live =
    come_up-Starts pid (wait_ready probes none) (check environ unit) live

if-Starts :
    (b : Bool) (granted : Option ℕ) (live : List ℕ) (e : ArmError) (r : Result ArmError ℕ × List ℕ)
    → Starts granted live r
    → Starts granted live (if b then (err e, live) else r)
if-Starts true granted live e r s = refl
if-Starts false granted live e r s = s

start_server-Starts :
    (unit : List Bytes) (b : Boot) (live : List ℕ)
    → Starts b.process live (start_server unit b live)
unfolding start_server
start_server-Starts unit b live = if-Starts (not b.ports) b.process live no_port _ (
    if-Starts (not b.certificate) b.process live no_certificate _ (
      if-Starts (not b.config_written) b.process live not_written _
        (boot_process-Starts unit b.process b.probes b.environ live)))

-- an error, or a row of the arm
abbrev pub IsRow : Arm → Result ArmError Row → Type 0
IsRow a (err e) = Unit
IsRow a (ok row) = (row.arm ≡ a) × (is_none row.attacker ≡ is_none a.attacker)

-- what an arm gives, and what it leaves: what there was, or, where a client ended the program, the server
-- as well
abbrev pub IsReleased : Boot → Window → Arm → List ℕ → Result ArmError Row × List ℕ → Type 0
IsReleased b w a live r =
    ((r.1 ≡ live) × IsRow a r.0)
    ⊎ ((w.clients_start ≡ false)
        × (r.0 ≡ err exited)
        × ((pid : ℕ) × (b.process ≡ some pid) × (r.1 ≡ pid ∷ live)))

row_of-IsRow : (a : Arm) (w : Window) (o : ℕ × ℕ × Option ArmError) → IsRow a (row_of a w o)
unfolding row_of
row_of-IsRow a w (down_at, up_at, some e) = tt
row_of-IsRow a w (down_at, up_at, none) = (refl, same a.attacker)
  where
    same :
        (c : Option ClientSpec)
        → is_none (elim c as (λ _. Option Stats) [ none ↦ none | some c ↦ some w.attacker ])
          ≡ is_none c
    same none = refl
    same (some c) = refl

run_server-IsReleased :
    (unit : List Bytes) (a : Arm) (b : Boot) (w : Window) (live : List ℕ)
    → IsReleased b w a live (run_server unit a b w live)
unfolding run_server
run_server-IsReleased unit a b w live =
    step (start_server unit b live).0 (start_server unit b live).1 (start_server-Starts unit b live)
  where
    window :
        (pid : ℕ) (up : List ℕ) (starts : Bool)
        → w.clients_start ≡ starts
        → b.process ≡ some pid
        → up ≡ pid ∷ live
        → IsReleased b w a live
            (if not starts then (err exited, up) else (row_of a w (wait_outage a w), stop pid up))
    window pid up false fails granted same = inr (fails, refl, (pid, granted, same))
    window pid up true starts granted same =
        inl (ap (stop pid) same ∙ stop_first pid live, row_of-IsRow a w (wait_outage a w))

    step :
        (started : Result ArmError ℕ) (up : List ℕ)
        → Starts b.process live (started, up)
        → IsReleased b w a live (elim started as (λ _. Result ArmError Row × List ℕ) [
          | err e ↦ (err e, up)
          | ok pid ↦
              if not w.clients_start
              then (err exited, up)
              else (row_of a w (wait_outage a w), stop pid up)
        ])
    step (err e) up s = inl (s, tt)
    step (ok pid) up (granted, same) = window pid up w.clients_start refl granted same

-- the mocks of an outage are what stopping them takes away, below a process too
abbrev Holds : List ℕ → Result ArmError Mocks × List ℕ → Type 0
Holds live r = elim r.0 [
  | err e ↦ r.1 ≡ live
  | ok o ↦ (stop_outage o r.1 ≡ live) × ((pid : ℕ) → stop_outage o (pid ∷ r.1) ≡ pid ∷ live)
]

stop_two : (i j : ℕ) (live : List ℕ) → stop j (stop i (j ∷ i ∷ live)) ≡ live
unfolding stop
stop_two i j live = ground arith

stop_below : (i pid : ℕ) (live : List ℕ) → stop i (pid ∷ i ∷ live) ≡ pid ∷ live
unfolding stop
stop_below i pid live = ground arith

stop_two_below : (i j pid : ℕ) (live : List ℕ) → stop j (stop i (pid ∷ j ∷ i ∷ live)) ≡ pid ∷ live
unfolding stop
stop_two_below i j pid live = ground arith

start_outage-Holds :
    (f : FailSpec) (first second : Option ℕ) (live : List ℕ)
    → Holds live (start_outage f first second live)
unfolding start_outage stop_outage
start_outage-Holds f none second live = refl
start_outage-Holds f (some i) second live = step f.alone second
  where
    step :
        (alone : Bool) (second : Option ℕ)
        → Holds live (
            if alone
            then (ok (i, none), i ∷ live)
            else elim second as (λ _. Result ArmError Mocks × List ℕ) [
              | none ↦ (err no_mock, stop i (i ∷ live))
              | some j ↦ (ok (i, some j), j ∷ i ∷ live)
            ])
    step true second = (stop_first i live, λ pid. stop_below i pid live)
    step false none = stop_first i live
    step false (some j) = (stop_two i j live, λ pid. stop_two_below i j pid live)

outage-IsReleased :
    (unit : List Bytes) (a : Arm) (b : Boot) (w : Window) (live : List ℕ)
    (r : Result ArmError Mocks × List ℕ)
    → Holds live r
    → IsReleased b w a live (elim r.0 as (λ _. Result ArmError Row × List ℕ) [
      | err e ↦ (err e, r.1)
      | ok o ↦ let (result, left) = run_server unit a b w r.1 in (result, stop_outage o left)
    ])
outage-IsReleased unit a b w live (err e, up) h = inl (h, tt)
outage-IsReleased unit a b w live (ok o, up) (taken, below) =
    step (run_server unit a b w up).0 (run_server unit a b w up).1
      (run_server-IsReleased unit a b w up)
  where
    step :
        (result : Result ArmError Row) (left : List ℕ)
        → IsReleased b w a up (result, left)
        → IsReleased b w a live (result, stop_outage o left)
    step result left (inl (same, given)) = inl (ap (stop_outage o) same ∙ taken, given)
    step result left (inr (fails, gone, (pid, granted, same))) =
        inr (fails, gone, (pid, granted, ap (stop_outage o) same ∙ below pid))

-- Whatever an arm finds, if every client of it starts, then none of the mocks and processes that it starts is
-- left, whether it gives a row or fails, and those there were before are. If one does not, this holds,
-- or else the program has ended and what is left is the server as well, and no mock. A row is that of the
-- arm, and has figures of an attacker exactly where the arm has one.
pub run_arm-IsReleased :
    (unit : List Bytes) (a : Arm) (mocks : Option ℕ × Option ℕ) (b : Boot) (w : Window)
    (live : List ℕ)
    → IsReleased b w a live (run_arm unit a mocks b w live)
unfolding run_arm
run_arm-IsReleased unit a mocks b w live = step a.fail
  where
    step :
        (f : Option FailSpec)
        → IsReleased b w a live (elim f as (λ _. Result ArmError Row × List ℕ) [
          | none ↦ run_server unit a b w live
          | some f ↦
              let (started, up) = start_outage f mocks.0 mocks.1 live in
              elim started as (λ _. Result ArmError Row × List ℕ) [
                | err e ↦ (err e, up)
                | ok o ↦
                    let (result, left) = run_server unit a b w up in (result, stop_outage o left)
              ]
        ])
    step none = run_server-IsReleased unit a b w live
    step (some f) =
        outage-IsReleased unit a b w live (start_outage f mocks.0 mocks.1 live)
          (start_outage-Holds f mocks.0 mocks.1 live)
