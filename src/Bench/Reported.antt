-- ===== src/Bench/Reported.antt =====
-- Which sections a run gives.
use elodin.Common.{
  ◌≡◌, refl, ap, Bool, true, false, List, [], ◌∷◌, map, ◌∙◌, Bytes, ℕ, suc, get_elem?, some, ◌⊎◌,
  inl, inr, codes, Result, ok, err, if◌then◌else◌,
}
use mathlib.Core.Path.{subst}
use elodin.Bench.Acts.{Trouble, World, Act, within, context, wrap, pure, next, ◌>>=◌, ◌>>◌}
use elodin.Bench.Machine.{Machine}
use elodin.Bench.Weighing.{log_disk_room}
use elodin.Bench.Sections.{wanted, run_plan, run_steps, run_sections}
use elodin.Bench.Cells.{Section}
use elodin.Bench.Titles.{titles, IsTitled, Titled, AllTitled, run_plan-AllTitled}
use elodin.Bench.Giving.{Holds}

-- the titles of the sections that are wanted
abbrev pub chosen : Bytes → List (Bytes × Bytes) → List Bytes
chosen asked [] = []
chosen asked ((name, t) ∷ rest) =
    let later = chosen asked rest in if wanted asked name then t ∷ later else later

-- sections of these titles, or an error that a wanted name has
abbrev Reports :
    (Bytes → Trouble → Type 0) → Bytes → List Bytes → Result Trouble (List Section) → Type 0
Reports Has asked ts (ok sections) = map (λ s. s.title) sections ≡ ts
Reports Has asked ts (err e) =
    (name : Bytes) × (why : Trouble) × (e ≡ within (name ∷ []) why)
    × (wanted asked name ≡ true)
    × Has name why

-- an error that the section of this name gives at some time, or the check of the disk before "logging"
abbrev pub Fails : Machine → Bytes → Trouble → Type 0
Fails m name why =
    (v : World) × (((i : ℕ) × (step : Act Section) × (get_elem? (run_plan m) i ≡ some (name, step))
        × ((step v).0 ≡ err why))
      ⊎ ((name ≡ codes "logging") × ((log_disk_room m v).0 ≡ err why)))

abbrev pub IsReport : Machine → Bytes → List Bytes → Result Trouble (List Section) → Type 0
IsReport m asked ts r = Reports (Fails m) asked ts r

module _ (Has : Bytes → Trouble → Type 0) (asked name t : Bytes) (ts : List Bytes)
    (step : Act Section) (later : Act (List Section)) where
  -- a section, if it comes, before a report of the others
  ran-IsReport :
      wanted asked name ≡ true
      → Titled t step
      → ((v : World) (why : Trouble) → (step v).0 ≡ err why → Has name why)
      → ((w : World) → Reports Has asked ts (later w).0)
      → (w : World)
      → Reports Has asked
          (t ∷ ts)
          ((context (name ∷ []) step >>= λ s. later >>= λ more. pure (s ∷ more)) w).0
  unfolding context ◌>>=◌ pure
  ran-IsReport is_wanted titled fails reports w =
      first (step w).0 (step w).1 (titled.gives w) (fails w)
    where
      second :
          (s : Section) (r : Result Trouble (List Section)) (v : World)
          → s.title ≡ t
          → Reports Has asked ts r
          → Reports Has asked (t ∷ ts) (next (λ more. pure (s ∷ more)) (r, v)).0
      second s (ok sections) v same titles =
          ap (λ u. u ∷ map (λ x. x.title) sections) same ∙ ap (λ us. t ∷ us) titles
      second s (err e) v same failed = failed

      first :
          (r : Result Trouble Section) (v : World)
          → Holds (IsTitled t) r
          → ((why : Trouble) → r ≡ err why → Has name why)
          → Reports Has asked
              (t ∷ ts)
              (next (λ s. later >>= λ more. pure (s ∷ more)) (wrap (name ∷ []) r, v)).0
      first (err e) v same has = (name, e, refl, is_wanted, has e refl)
      first (ok s) v same has = second s (later v).0 (later v).1 same (reports v)

  step-IsReport :
      (b : Bool)
      → wanted asked name ≡ b
      → Titled t step
      → ((v : World) (why : Trouble) → (step v).0 ≡ err why → Has name why)
      → ((w : World) → Reports Has asked ts (later w).0)
      → (w : World)
      → Reports Has asked
          (if b then t ∷ ts else ts)
          ((if b
              then (context (name ∷ []) step >>= λ s. later >>= λ more. pure (s ∷ more))
              else later)
            w).0
  step-IsReport true is_wanted titled fails reports = ran-IsReport is_wanted titled fails reports
  step-IsReport false passed titled fails reports = reports

run_steps-IsReport :
    (Has : Bytes → Trouble → Type 0) (asked : Bytes) (todo : List (Bytes × Act Section))
    (rest : List (Bytes × Bytes))
    → AllTitled todo rest
    → ((i : ℕ) (name : Bytes) (step : Act Section) (v : World) (why : Trouble)
        → get_elem? todo i ≡ some (name, step)
        → (step v).0 ≡ err why
        → Has name why)
    → (w : World) → Reports Has asked (chosen asked rest) (run_steps asked todo w).0
unfolding run_steps pure
run_steps-IsReport Has asked [] [] known fails w = refl
run_steps-IsReport Has asked [] (p ∷ rest) known fails w = absurd known
run_steps-IsReport Has asked (s ∷ todo) [] known fails w = absurd known
run_steps-IsReport Has asked ((name, step) ∷ todo) ((name', t) ∷ rest) (same, titled, known) fails
      w =
    subst
      (λ n.
        Reports Has asked (if wanted asked n then t ∷ chosen asked rest else chosen asked rest)
          (run_steps asked ((name, step) ∷ todo) w).0)
      same
      (step-IsReport Has asked name t (chosen asked rest) step (run_steps asked todo)
        (wanted asked name) refl titled (λ v why e. fails 0 name step v why refl e)
        (run_steps-IsReport Has asked todo rest known
          λ i n s v why at e. fails (suc i) n s v why at e)
        w)

-- a check of a step that is wanted, and a report
checked-IsReport :
    (Has : Bytes → Trouble → Type 0) (asked name : Bytes) (ts : List Bytes) (check : Act (Unit {0}))
    (later : Act (List Section)) (b : Bool)
    → wanted asked name ≡ b
    → ((v : World) (why : Trouble) → (check v).0 ≡ err why → Has name why)
    → ((w : World) → Reports Has asked ts (later w).0)
    → (w : World)
    → Reports Has asked ts ((if b then (context (name ∷ []) check >> later) else later) w).0
unfolding context ◌>>=◌
checked-IsReport Has asked name ts check later false unwanted fails reports w = reports w
checked-IsReport Has asked name ts check later true is_wanted fails reports w =
    step (check w).0 (check w).1 (fails w)
  where
    step :
        (r : Result Trouble (Unit {0})) (v : World)
        → ((why : Trouble) → r ≡ err why → Has name why)
        → Reports Has asked ts (next (λ _. later) (wrap (name ∷ []) r, v)).0
    step (ok u) v has = reports v
    step (err e) v has = (name, e, refl, is_wanted, has e refl)

-- A run that is asked for sections by a text gives those whose name contains it, all of them if it is empty,
-- in the order of `runAll`, each under its title; or under the name of one of those sections it
-- gives an error that this section gives in some state, or that the check of the disk gives before
-- "logging".
pub run_sections-IsReport :
    (asked : Bytes) (m : Machine) (w : World)
    → IsReport m asked (chosen asked titles) (run_sections asked m w).0
unfolding run_sections
run_sections-IsReport asked m w =
    checked-IsReport (Fails m) asked (codes "logging") (chosen asked titles) (log_disk_room m)
      (run_steps asked (run_plan m)) (wanted asked (codes "logging")) refl
      (λ v why e. (v, inr (refl, e)))
      (run_steps-IsReport (Fails m) asked (run_plan m) titles (run_plan-AllTitled m)
        λ i name step v why at e. (v, inl (i, step, at, e)))
      w
