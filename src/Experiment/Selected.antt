-- ===== src/Experiment/Selected.antt =====
-- Which arms run, and which are skipped.
use elodin.Common.{
  ◌≡◌, refl, sym, ap, ◌∙◌, Bool, true, false, not, Option, List, [], ◌∷◌, ◌++◌, map, filter,
  append_assoc, append-nil, Bytes, Result, ok, err, Result-cases, Bool-cases, inl, inr, ◌>>=◌,
}
use elodin.Text.{str_eq}
use elodin.Experiment.Matrix.{Arm, Row, Skip, is_selected, unusable, matrix_loop, run_matrix}

-- arms run one after the other until one fails
abbrev pub run_each {ℓ} :
    {E : Type ℓ} → (Arm → Result E Row) → List Arm → Result (Bytes × E) (List Row)
run_each run_arm [] = ok []
run_each run_arm (a ∷ arms) =
    named a (run_arm a) >>= λ r. run_each run_arm arms >>= λ rs. ok (r ∷ rs)
  where
    named : {E : Type ℓ} (a : Arm) → Result E Row → Result (Bytes × E) Row
    named a (err e) = err (a.name, e)
    named a (ok r) = ok r

abbrev pub is_usable : (Arm → Bytes) → Arm → Bool
is_usable why_not a = str_eq (why_not a) []

abbrev pub skip_of : (Arm → Bytes) → Arm → Skip
skip_of why_not a = record { name = a.name; why = why_not a }

-- the arms that run, and those skipped
abbrev pub runs : Bytes → (Arm → Bytes) → List Arm → List Arm
runs only why_not arms = filter (is_usable why_not) (filter (is_selected only) arms)

abbrev pub skips : Bytes → (Arm → Bytes) → List Arm → List Skip
skips only why_not arms =
    map (skip_of why_not) (filter (λ a. not (is_usable why_not a)) (filter (is_selected only) arms))

module _ (only : Bytes) (why_not : Arm → Bytes) (a : Arm) (arms : List Arm) where
  passed_over :
      is_selected only a ≡ false
      → (runs only why_not (a ∷ arms) ≡ runs only why_not arms)
        × (skips only why_not (a ∷ arms) ≡ skips only why_not arms)
  passed_over passed = (rw (filter, passed) refl, rw (filter, passed) refl)

  skipped_over :
      is_selected only a ≡ true
      → is_usable why_not a ≡ false
      → (runs only why_not (a ∷ arms) ≡ runs only why_not arms)
        × (skips only why_not (a ∷ arms) ≡ skip_of why_not a ∷ skips only why_not arms)
  skipped_over selected cannot =
      (rw (filter, selected, cannot) refl, rw (filter, selected, cannot) refl)

  gone_into :
      is_selected only a ≡ true
      → is_usable why_not a ≡ true
      → (runs only why_not (a ∷ arms) ≡ a ∷ runs only why_not arms)
        × (skips only why_not (a ∷ arms) ≡ skips only why_not arms)
  gone_into selected can = (rw (filter, selected, can) refl, rw (filter, selected, can) refl)

pair_eq :
    {a b : List Row} {c d : List Skip} → a ≡ b → c ≡ d → Path (List Row × List Skip) (a, c) (b, d)
pair_eq p q = λ i. (p i, q i)

-- the rows and the skips of the arms that are left, behind those there are
abbrev after {ℓ} :
    {E : Type ℓ}
    → List Row
    → List Skip
    → Result E (List Row)
    → List Skip
    → Result E (List Row × List Skip)
after rows skipped r more = r >>= λ rs. ok (rows ++ rs, skipped ++ more)

after-skip {ℓ} :
    {E : Type ℓ} (rows : List Row) (skipped : List Skip) (r : Result E (List Row)) (s : Skip)
    (more : List Skip)
    → after rows (skipped ++ s ∷ []) r more ≡ after rows skipped r (s ∷ more)
after-skip rows skipped (err e) s more = refl
after-skip rows skipped (ok rs) s more = ap ok (pair_eq refl (append_assoc skipped (s ∷ []) more))

after-run {ℓ} :
    {E : Type ℓ} (rows : List Row) (skipped : List Skip) (r : Result E (List Row)) (row : Row)
    (more : List Skip)
    → after (rows ++ row ∷ []) skipped r more ≡ after rows skipped (r >>= λ rs. ok (row ∷ rs)) more
after-run rows skipped (err e) row more = refl
after-run rows skipped (ok rs) row more = ap ok (pair_eq (append_assoc rows (row ∷ []) rs) refl)

matrix_loop-runs {ℓ} :
    {E : Type ℓ} (only : Bytes) (why_not : Arm → Bytes) (run_arm : Arm → Result E Row)
    (arms : List Arm) (rows : List Row) (skipped : List Skip)
    → matrix_loop only why_not run_arm arms rows skipped
      ≡ after rows skipped (run_each run_arm (runs only why_not arms)) (skips only why_not arms)
unfolding matrix_loop
matrix_loop-runs only why_not run_arm [] rows skipped =
    ap ok (pair_eq (sym (append-nil rows)) (sym (append-nil skipped)))
matrix_loop-runs only why_not run_arm (a ∷ arms) rows skipped =
    elim (Bool-cases (is_selected only a)) [
      | inr passed ↦
          let (same, same') = passed_over only why_not a arms passed in
          rw (same, same', matrix_loop, passed)
            (matrix_loop-runs only why_not run_arm arms rows skipped)
      | inl selected ↦ elim (Bool-cases (is_usable why_not a)) [
        | inr cannot ↦
            let (same, more) = skipped_over only why_not a arms selected cannot in
            rw (same, more, matrix_loop, selected, cannot)
              (matrix_loop-runs only why_not run_arm arms rows (skipped ++ skip_of why_not a ∷ [])
                ∙ after-skip rows skipped (run_each run_arm (runs only why_not arms))
                    (skip_of why_not a) (skips only why_not arms))
        | inl can ↦
            let (more, same) = gone_into only why_not a arms selected can in
            elim (Result-cases (run_arm a)) [
              | inr (e, failed) ↦ rw (more, same, matrix_loop, selected, can, run_each, failed) refl
              | inl (r, ran) ↦
                  rw (more, same, matrix_loop, selected, can, run_each, ran)
                    (matrix_loop-runs only why_not run_arm arms (rows ++ r ∷ []) skipped
                      ∙ after-run rows skipped (run_each run_arm (runs only why_not arms)) r
                          (skips only why_not arms))
            ]
      ]
    ]

-- Of the arms, `runMatrix` selects those that `-only` names, reports as skipped, each with the reason, those
-- of them that this machine cannot run, and runs the others one after the other. It ends with the rows of
-- these and the skips, both in the order of the arms, or with the first of them that fails and its error.
pub run_matrix-runs {ℓ} :
    {E : Type ℓ} (only : Bytes) (parse_ip : Bytes → Option Bytes) (bindable : Bytes → Bool)
    (run_arm : Arm → Result E Row) (arms : List Arm)
    → run_matrix only parse_ip bindable run_arm arms ≡ (
        let why_not = unusable parse_ip bindable in
        run_each run_arm (runs only why_not arms) >>= λ rows. ok (rows, skips only why_not arms))
unfolding run_matrix
run_matrix-runs only parse_ip bindable run_arm arms =
    matrix_loop-runs only (unusable parse_ip bindable) run_arm arms [] []
