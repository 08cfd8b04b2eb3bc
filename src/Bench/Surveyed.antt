-- ===== src/Bench/Surveyed.antt =====
-- What the figures of the DNSSEC survey count.
use elodin.Common.{
  ℕ, ◌+◌, ◌≤◌, ◌≡◌, refl, ap, sym, ◌∙◌, Bool, not, ◌&&◌, ◌||◌, List, [], ◌∷◌, ◌++◌, ◌==◌,
  if◌then◌else◌, length, length-append, filter, filter-append, append_assoc, append-nil, arith,
  count_if, count_if-cons,
}
use mathlib.Core.Path.{subst}
use elodin.Bench.Survey.{
  Verdict, is_some, agrees, Figures, no_figures, count_verdict, count_verdicts,
}

abbrev pub has_failed : Verdict → Bool
has_failed v = is_some v.elodin_err || is_some v.ref_err

-- both sides answered, and elodin served a name that it must refuse, or answered otherwise than the
-- reference
abbrev pub is_wrong : Verdict → Bool
is_wrong v =
    not (has_failed v) && (if v.want_bogus then not (v.elodin_rcode == 2) else not (agrees v))

-- the figures on these results
abbrev pub Tallied : List Verdict → Figures → Type 0
Tallied results f =
    (f.agreed + f.disagreed + f.bogus_refused + f.bogus_served + f.failed ≡ length results)
    × (f.mismatches ≡ filter is_wrong results)
    × (f.errored ≡ filter has_failed results)
    × (length f.mismatches ≡ f.disagreed + f.bogus_served)
    × (length f.errored ≡ f.failed)
    × (f.ad_here ≤ f.agreed + f.disagreed)
    × (f.ad_there ≤ f.agreed + f.disagreed)

abbrev sum : Figures → ℕ
sum f = f.agreed + f.disagreed + f.bogus_refused + f.bogus_served + f.failed

-- what one verdict does to the figures
abbrev Adds : Verdict → Figures → Figures → Type 0
Adds v f g =
    (sum g ≡ sum f + 1)
    × (g.mismatches ≡ f.mismatches ++ filter is_wrong (v ∷ []))
    × (g.errored ≡ f.errored ++ filter has_failed (v ∷ []))
    × (g.disagreed + g.bogus_served
        ≡ f.disagreed + f.bogus_served + length (filter is_wrong (v ∷ [])))
    × (g.failed ≡ f.failed + length (filter has_failed (v ∷ [])))
    × (g.ad_here + (f.agreed + f.disagreed) ≤ f.ad_here + (g.agreed + g.disagreed))
    × (g.ad_there + (f.agreed + f.disagreed) ≤ f.ad_there + (g.agreed + g.disagreed))

count_verdict-Adds : (v : Verdict) (f : Figures) → Adds v f (count_verdict v f)
unfolding count_verdict
count_verdict-Adds v f = ground (arith, append-nil f.mismatches, append-nil f.errored)

length-filter :
    (p : Verdict → Bool) (seen : List Verdict) (v : Verdict)
    → length (filter p (seen ++ v ∷ [])) ≡ length (filter p seen) + length (filter p (v ∷ []))
length-filter p seen v =
    ap length (filter-append p seen (v ∷ [])) ∙ length-append (filter p seen) (filter p (v ∷ []))

count_verdict-Tallied :
    (seen : List Verdict) (v : Verdict) (f : Figures)
    → Tallied seen f
    → Tallied (seen ++ v ∷ []) (count_verdict v f)
count_verdict-Tallied seen v f (all, wrong, failed, wrongs, fails, here, there) =
    let (all', wrong', failed', wrongs', fails', here', there') = count_verdict-Adds v f in
    let mismatches : (count_verdict v f).mismatches ≡ filter is_wrong (seen ++ v ∷ []) =
      wrong'
      ∙ ap (λ l. l ++ filter is_wrong (v ∷ [])) wrong
      ∙ sym (filter-append is_wrong seen (v ∷ [])) in
    let errored : (count_verdict v f).errored ≡ filter has_failed (seen ++ v ∷ []) =
      failed'
      ∙ ap (λ l. l ++ filter has_failed (v ∷ [])) failed
      ∙ sym (filter-append has_failed seen (v ∷ [])) in
    let wrongs'' : length (filter is_wrong seen) ≡ f.disagreed + f.bogus_served =
      sym (ap length wrong) ∙ wrongs in
    let fails'' : length (filter has_failed seen) ≡ f.failed = sym (ap length failed) ∙ fails in
    (
      omega (arith, length-append seen (v ∷ [])),
      mismatches,
      errored,
      ap length mismatches ∙ omega (arith, length-filter is_wrong seen v),
      ap length errored ∙ omega (arith, length-filter has_failed seen v),
      omega arith,
      omega arith,
    )

count_verdicts-Tallied :
    (seen results : List Verdict) (f : Figures)
    → Tallied seen f
    → Tallied (seen ++ results) (count_verdicts results f)
unfolding count_verdicts
count_verdicts-Tallied seen [] f t = subst (λ l. Tallied l f) (sym (append-nil seen)) t
count_verdicts-Tallied seen (v ∷ results) f t =
    subst (λ l. Tallied l (count_verdicts results (count_verdict v f)))
      (append_assoc seen (v ∷ []) results)
      (count_verdicts-Tallied (seen ++ v ∷ []) results (count_verdict v f)
        (count_verdict-Tallied seen v f t))

-- both sides answered, and elodin was to resolve the name
abbrev is_compared : Verdict → Bool
is_compared v = not (has_failed v) && not v.want_bogus

-- both sides answered, and elodin was to refuse the name
abbrev is_checked : Verdict → Bool
is_checked v = not (has_failed v) && v.want_bogus

-- `g` counts, over `f`, the verdicts of each kind
abbrev pub Sums : List Verdict → Figures → Figures → Type 0
Sums results f g =
    (g.agreed ≡ f.agreed + count_if (λ v. is_compared v && agrees v) results)
    × (g.disagreed ≡ f.disagreed + count_if (λ v. is_compared v && not (agrees v)) results)
    × (g.bogus_refused
        ≡ f.bogus_refused + count_if (λ v. is_checked v && v.elodin_rcode == 2) results)
    × (g.bogus_served
        ≡ f.bogus_served + count_if (λ v. is_checked v && not (v.elodin_rcode == 2)) results)
    × (g.failed ≡ f.failed + count_if has_failed results)
    × (g.ad_here ≡ f.ad_here + count_if (λ v. is_compared v && v.elodin_ad) results)
    × (g.ad_there ≡ f.ad_there + count_if (λ v. is_compared v && v.ref_ad) results)

count_verdict-Sums : (v : Verdict) (f : Figures) → Sums (v ∷ []) f (count_verdict v f)
unfolding count_verdict
count_verdict-Sums v f = ground arith

Sums-cons :
    (v : Verdict) (results : List Verdict) (f g h : Figures)
    → Sums (v ∷ []) f g
    → Sums results g h
    → Sums (v ∷ results) f h
Sums-cons v results f g h (a, d, r, s, e, x, y) (a', d', r', s', e', x', y') = (
  omega (arith, count_if-cons (λ v. is_compared v && agrees v) v results),
  omega (arith, count_if-cons (λ v. is_compared v && not (agrees v)) v results),
  omega (arith, count_if-cons (λ v. is_checked v && v.elodin_rcode == 2) v results),
  omega (arith, count_if-cons (λ v. is_checked v && not (v.elodin_rcode == 2)) v results),
  omega (arith, count_if-cons has_failed v results),
  omega (arith, count_if-cons (λ v. is_compared v && v.elodin_ad) v results),
  omega (arith, count_if-cons (λ v. is_compared v && v.ref_ad) v results),
)

count_verdicts-Sums :
    (results : List Verdict) (f : Figures) → Sums results f (count_verdicts results f)
unfolding count_verdicts
count_verdicts-Sums [] f =
    (omega arith, omega arith, omega arith, omega arith, omega arith, omega arith, omega arith)
count_verdicts-Sums (v ∷ results) f =
    Sums-cons v results f (count_verdict v f) (count_verdicts results (count_verdict v f))
      (count_verdict-Sums v f) (count_verdicts-Sums results (count_verdict v f))

-- Of any verdicts, the report counts each once: as agreeing, differing, broken and refused, broken and
-- served, or unanswered. It lists as unanswered those that a side failed to answer, and as mismatches
-- those that both answered where a broken name is not SERVFAIL or another has an rcode or an AD bit
-- that differs; these are as many as it counts. Each count is the number of the verdicts of its kind: the
-- AD bits are those of a side among the names that both answered and that are not broken.
pub count_verdicts-counts :
    (results : List Verdict)
    → Tallied results (count_verdicts results no_figures)
      × Sums results no_figures (count_verdicts results no_figures)
count_verdicts-counts results = (
  count_verdicts-Tallied [] results no_figures
      (refl, refl, refl, refl, refl, omega arith, omega arith),
  count_verdicts-Sums results no_figures,
)
