-- ===== src/Bench/Climbing.antt =====
-- Which step of the ladder a row reports.
use elodin.Common.{
  ℕ, ◌≡◌, ◌⊎◌, inl, inr, refl, true, false, Option, none, some, List, [], ◌∷◌, Bool-cases, Result,
  ok, err, Result-cases,
}
use elodin.Bench.Load.{Run}
use elodin.Bench.Ladder.{Failure, Offered, Step, run_step, carried, Lost, lost, climb}

abbrev pub last_of : Step → List Step → Step
last_of best [] = best
last_of best (st ∷ steps) = last_of st steps

abbrev pub rate_of : Step → ℕ
rate_of st = st.rate

module _ (load_at : Offered → Result Failure Run) where
  -- a step that is carried when its rate is offered
  abbrev pub IsCarried : ℕ → Step → Type 0
  IsCarried rate st = (run_step load_at rate 1 ≡ ok st) × (carried st ≡ true)

  -- the steps that are carried at the first of some rates
  abbrev pub AllCarried : List ℕ → List Step → List ℕ → Type 0
  AllCarried rates [] rest = rates ≡ rest
  AllCarried [] (st ∷ steps) rest = true ≡ false
  AllCarried (rate ∷ rates) (st ∷ steps) rest = IsCarried rate st × AllCarried rates steps rest

  -- how the climb ends at the rates that are left: above them all, at a step that is not carried, or
  -- at a rate whose run fails
  abbrev pub EndsAt : Step → List ℕ → Result Failure (Step × Option Lost) → Type 0
  EndsAt top [] r = r ≡ ok (top, none)
  EndsAt top (rate ∷ rest) r =
      ((st : Step) × (run_step load_at rate 1 ≡ ok st)
        × (carried st ≡ false)
        × (r ≡ ok (top, some (lost st))))
      ⊎ ((e : Failure) × (run_step load_at rate 1 ≡ err e) × (r ≡ err e))

  -- From a step and some rates above it, each of the first of the rates is carried, and the row's best
  -- step is the last of them, or the step it came from if there is none. The climb ends there because
  -- no rate is left, because the next one is not carried, which is what the row has as lost, or because
  -- its run fails, which is the error returned.
  pub climb-ends :
      (best : Step) (rates : List ℕ)
      → (steps : List Step) × (rest : List ℕ) × AllCarried rates steps rest
        × EndsAt (last_of best steps) rest (climb load_at best rates)
  unfolding climb
  climb-ends best [] = ([], [], refl, refl)
  climb-ends best (rate ∷ rates) = elim (Result-cases (run_step load_at rate 1)) [
    | inr (e, failed) ↦ ([], rate ∷ rates, refl, inr (e, failed, rw (climb, failed) refl))
    | inl (st, ran) ↦ elim (Bool-cases (carried st)) [
      | inr lost_some ↦
          ([], rate ∷ rates, refl, inl (st, ran, lost_some, rw (climb, ran, lost_some) refl))
      | inl higher ↦
          let (steps, rest, all, end) = climb-ends st rates in
          (st ∷ steps, rest, ((ran, higher), all), rw (climb, ran, higher) end)
    ]
  ]
