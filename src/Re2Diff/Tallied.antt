-- ===== src/Re2Diff/Tallied.antt =====
-- What the comparison of the regex engines counts.
use elodin.Common.{
  ℕ, suc, ◌+◌, ◌≤◌, ◌≡◌, refl, ap, ◌∙◌, Bool, true, false, not, ◌&&◌, ◌||◌, List, [], ◌∷◌, ◌++◌,
  length, All, leb, ◌==◌, if◌then◌else◌, Bytes, codes, ok, ◌>>=◌, Bool-cases, inl, inr, arith,
}
use elodin.Text.{str_eq, contains}
use elodin.Re2Diff.{urlfilter_bits, report, Tally, no_tally, refuse, keep, compare_all}

-- the patterns and what elodin answers for each
abbrev pub is_refused : Bytes → Bool
is_refused g = str_eq g (codes "-")

-- how many patterns pass a test of the answer of elodin and of that of urlfilter
abbrev pub count_pairs : (Bytes → Bytes → Bool) → (Bytes → Bytes) → List Bytes → List Bytes → ℕ
count_pairs p want [] got = 0
count_pairs p want (q ∷ patterns) [] = 0
count_pairs p want (q ∷ patterns) (g ∷ got) =
    (if p g (want q) then 1 else 0) + count_pairs p want patterns got

abbrev pub keeps : Bytes → Bytes → Bool
keeps g w = not (is_refused g)

abbrev pub refuses : Bytes → Bytes → Bool
refuses g w = is_refused g

-- refused, although urlfilter blocks a name with it
abbrev pub declines : Bytes → Bytes → Bool
declines g w = is_refused g && contains w (codes "1")

-- kept, and blocking other names than urlfilter
abbrev pub diverges : Bytes → Bytes → Bool
diverges g w = not (is_refused g) && not (str_eq g w)

-- an answer that is a refusal or has a bit for each name
abbrev pub IsAnswer : List Bytes → Bytes → Type 0
IsAnswer names g = (is_refused g || (length g == length names)) ≡ true

length-urlfilter_bits :
    (blocks : Bytes → Bytes → Bool) (p : Bytes) (names : List Bytes)
    → length (urlfilter_bits blocks p names) ≡ length names
unfolding urlfilter_bits
length-urlfilter_bits blocks p [] = refl
length-urlfilter_bits blocks p (n ∷ names) = ap suc (length-urlfilter_bits blocks p names)

report-ok :
    (names : List Bytes) (got want : Bytes)
    → length got ≡ length names
    → length want ≡ length names
    → (lines : List (Bytes × ℕ × ℕ)) × (report names got want ≡ ok lines)
unfolding report
report-ok [] got want h k = ([], refl)
report-ok (n ∷ names) [] want h k = absurd (omega arith)
report-ok (n ∷ names) (g ∷ got) [] h k = absurd (omega arith)
report-ok (n ∷ names) (g ∷ got) (w ∷ want) h k =
    let (lines, e) = report-ok names got want (omega arith) (omega arith) in
    (_, ap (λ r. r >>= λ lines. ok (if not (g == w) then (n, g, w) ∷ lines else lines)) e)

-- what one pattern adds to the counts
abbrev Adds : Bytes → Bytes → Tally → Tally → Type 0
Adds g w t t' =
    (t'.kept ≡ t.kept + (if keeps g w then 1 else 0))
    × (t'.refused ≡ t.refused + (if refuses g w then 1 else 0))
    × (t'.declined ≡ t.declined + (if declines g w then 1 else 0))
    × (t'.divergent ≡ t.divergent + (if diverges g w then 1 else 0))

refuse-Adds : (g w : Bytes) (t : Tally) → is_refused g ≡ true → Adds g w t (refuse w t)
unfolding refuse
refuse-Adds g w t h = elim (Bool-cases (contains w (codes "1"))) [
  | inl blocks ↦ rw (h, blocks) (omega arith, omega arith, omega arith, omega arith)
  | inr none_of ↦ rw (h, none_of) (omega arith, omega arith, omega arith, omega arith)
]

keep-Adds :
    (names : List Bytes) (p g w : Bytes) (t : Tally)
    → is_refused g ≡ false
    → length g ≡ length names
    → length w ≡ length names
    → (t' : Tally) × (keep names p g w t ≡ ok t') × Adds g w t t'
unfolding keep
keep-Adds names p g w t h k l = elim (Bool-cases (str_eq g w)) [
  | inl same ↦ (
    record t { kept = t.kept + 1 },
    rw (keep, same) refl,
    rw (h, same) (omega arith, omega arith, omega arith, omega arith),
  )
  | inr differ ↦ elim (Bool-cases (leb (t.divergent + 1) 40)) [
    | inr many ↦ (
      record t { kept = t.kept + 1; divergent = t.divergent + 1 },
      rw (keep, differ, many) refl,
      rw (h, differ) (omega arith, omega arith, omega arith, omega arith),
    )
    | inl few ↦
        let (lines, told) = report-ok names g w k l in
        (
          record t {
            kept = t.kept + 1;
            divergent = t.divergent + 1;
            reported = t.reported ++ (p, lines) ∷ [];
          },
          rw (keep, differ, few, told) refl,
          rw (h, differ) (omega arith, omega arith, omega arith, omega arith),
        )
  ]
]

one_pattern :
    (names : List Bytes) (p g w : Bytes) (t : Tally)
    → IsAnswer names g
    → length w ≡ length names
    → (t' : Tally) × ((if str_eq g (codes "-") then ok (refuse w t) else keep names p g w t)
        ≡ ok t')
      × Adds g w t t'
one_pattern names p g w t a l = elim (Bool-cases (is_refused g)) [
  | inl refused ↦ (refuse w t, rw refused refl, refuse-Adds g w t refused)
  | inr kept ↦
      let bits : length g ≡ length names = ground (arith, a, kept) in
      let (t', e, adds) = keep-Adds names p g w t kept bits l in (t', rw kept e, adds)
]

-- what some patterns add to the counts
abbrev Tallies : (Bytes → Bytes) → List Bytes → List Bytes → Tally → Tally → Type 0
Tallies want patterns got t t' =
    (t'.kept ≡ t.kept + count_pairs keeps want patterns got)
    × (t'.refused ≡ t.refused + count_pairs refuses want patterns got)
    × (t'.declined ≡ t.declined + count_pairs declines want patterns got)
    × (t'.divergent ≡ t.divergent + count_pairs diverges want patterns got)

compare_all-Tallies :
    (blocks : Bytes → Bytes → Bool) (names patterns got : List Bytes) (t : Tally)
    → length got ≡ length patterns
    → All (IsAnswer names) got
    → (t' : Tally) × (compare_all blocks names patterns got t ≡ ok t')
      × Tallies (λ p. urlfilter_bits blocks p names) patterns got t t'
unfolding compare_all
compare_all-Tallies blocks names [] got t h a =
    (t, refl, (omega arith, omega arith, omega arith, omega arith))
compare_all-Tallies blocks names (p ∷ patterns) [] t h a = absurd (omega arith)
compare_all-Tallies blocks names (p ∷ patterns) (g ∷ got) t h (here, a) =
    let (t', e, (kept, refused, declined, divergent)) =
      one_pattern names p g (urlfilter_bits blocks p names) t here
        (length-urlfilter_bits blocks p names) in
    let (t'', e', (kept', refused', declined', divergent')) =
      compare_all-Tallies blocks names patterns got t' (omega arith) a in
    (
      t'',
      ap (λ r. r >>= λ t'. compare_all blocks names patterns got t') e ∙ e',
      (omega arith, omega arith, omega arith, omega arith),
    )

count_pairs-bounds :
    (want : Bytes → Bytes) (patterns got : List Bytes)
    → length got ≡ length patterns
    → (count_pairs keeps want patterns got + count_pairs refuses want patterns got
        ≡ length patterns)
      × (count_pairs declines want patterns got ≤ count_pairs refuses want patterns got)
      × (count_pairs diverges want patterns got ≤ count_pairs keeps want patterns got)
count_pairs-bounds want [] got h = (omega arith, omega arith, omega arith)
count_pairs-bounds want (p ∷ patterns) [] h = absurd (omega arith)
count_pairs-bounds want (p ∷ patterns) (g ∷ got) h =
    let (all, declined, diverged) = count_pairs-bounds want patterns got (omega arith) in
    ground (arith, all, declined, diverged)

-- For as many answers as patterns, each a refusal or a bit for every name, `compare` goes through without
-- an index out of range. It counts the patterns that are kept, that are refused, that are refused though
-- urlfilter blocks a name with them, and that are kept but block other names than urlfilter; the kept and
-- the refused are all patterns, and each of the last two is at most what it is a part of.
pub compare_all-counts :
    (blocks : Bytes → Bytes → Bool) (names patterns got : List Bytes)
    → length got ≡ length patterns
    → All (IsAnswer names) got
    → (t : Tally) × (compare_all blocks names patterns got no_tally ≡ ok t)
      × (let want : Bytes → Bytes = λ p. urlfilter_bits blocks p names in
          (t.kept ≡ count_pairs keeps want patterns got)
          × (t.refused ≡ count_pairs refuses want patterns got)
          × (t.declined ≡ count_pairs declines want patterns got)
          × (t.divergent ≡ count_pairs diverges want patterns got)
          × (t.kept + t.refused ≡ length patterns)
          × (t.declined ≤ t.refused)
          × (t.divergent ≤ t.kept))
compare_all-counts blocks names patterns got h a =
    let (t, e, (kept, refused, declined, divergent)) =
      compare_all-Tallies blocks names patterns got no_tally h a in
    let (all, less, less') =
      count_pairs-bounds (λ p. urlfilter_bits blocks p names) patterns got h in
    (
      t,
      e,
      (omega arith, omega arith, omega arith, omega arith, omega arith, omega arith, omega arith),
    )
