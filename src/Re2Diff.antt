-- ===== src/Re2Diff.antt =====
-- scripts/re2diff/main.go: what elodin answers for each pattern, held to what urlfilter answers.
--
-- The engine of urlfilter, which is a package of its own, is the argument `blocks`: whether the rule of a
-- pattern blocks a name. The driver's output is input, as is how miekg/dns presents a name. An index out
-- of range, on which Go panics, is an error.
pub mod Tallied
use elodin.Common.{
  ℕ, zero, suc, ◌+◌, Bool, true, false, not, Option, none, some, List, [], ◌∷◌, ◌++◌, length, leb,
  ◌==◌, ◌%◌, if◌then◌else◌, Bytes, codes, Result, ok, err, ◌>>=◌, guard, ◌>>◌,
}
use elodin.Text.{str_eq, contains, split, trim_suffix}

pub data Error : Type 0 where
  out_of_range : Error
  results_for : ℕ → ℕ → Error

-- `urlfilterBits`
unfoldable pub urlfilter_bits : (Bytes → Bytes → Bool) → Bytes → List Bytes → Bytes
urlfilter_bits blocks pattern [] = []
urlfilter_bits blocks pattern (name ∷ names) =
    (if blocks pattern name then b'1' else b'0') ∷ urlfilter_bits blocks pattern names

-- what `runElodin` makes of the driver's output: as many lines as there are patterns
unfoldable pub read_driver : List Bytes → Bytes → Result Error (List Bytes)
unfolding split trim_suffix
read_driver patterns out =
    let got = split (trim_suffix out b'\n') b'\n' in
    guard (length got == length patterns) (results_for (length got) (length patterns)) >> ok got

-- `report`: the names on which the bits differ, with both
unfoldable pub report : List Bytes → Bytes → Bytes → Result Error (List (Bytes × ℕ × ℕ))
report [] got want = ok []
report (name ∷ names) [] want = err out_of_range
report (name ∷ names) (g ∷ got) [] = err out_of_range
report (name ∷ names) (g ∷ got) (w ∷ want) =
    report names got want >>= λ lines. ok (if not (g == w) then (name, g, w) ∷ lines else lines)

-- what `compare` counts, and the patterns it reports, with their lines
pub record Tally : Type 0 where
  pub kept : ℕ
  pub refused : ℕ
  pub declined : ℕ
  pub divergent : ℕ
  pub reported : List (Bytes × List (Bytes × ℕ × ℕ))

abbrev pub no_tally : Tally
no_tally = record { kept = 0; refused = 0; declined = 0; divergent = 0; reported = [] }

-- a pattern that elodin refuses
unfoldable pub refuse : Bytes → Tally → Tally
unfolding contains
refuse want t =
    let counted = record t { refused = t.refused + 1 } in
    if contains want (codes "1") then record counted { declined = t.declined + 1 } else counted

-- a pattern that it keeps: the first 40 that diverge are reported
unfoldable pub keep : List Bytes → Bytes → Bytes → Bytes → Tally → Result Error Tally
unfolding str_eq report
keep names pattern got want t =
    let counted = record t { kept = t.kept + 1 } in
    let diverged = record counted { divergent = t.divergent + 1 } in
    let told : Result Error Tally = report names got want >>= λ lines.
    ok (record diverged { reported = t.reported ++ (pattern, lines) ∷ [] }) in
    if str_eq got want then ok counted else if leb (t.divergent + 1) 40 then told else ok diverged

-- `compare`
unfoldable pub compare_all :
    (Bytes → Bytes → Bool) → List Bytes → List Bytes → List Bytes → Tally → Result Error Tally
unfolding urlfilter_bits refuse keep str_eq
compare_all blocks names [] got t = ok t
compare_all blocks names (p ∷ patterns) [] t = err out_of_range
compare_all blocks names (p ∷ patterns) (g ∷ got) t =
    let want = urlfilter_bits blocks p names in
    let step : Result Error Tally =
      if str_eq g (codes "-") then ok (refuse want t) else keep names p g want t in
    step >>= λ t'. compare_all blocks names patterns got t'

-- a name on the wire, as `drawNames` writes its labels
unfoldable pub wire_name : List Bytes → Bytes
wire_name [] = 0 ∷ []
wire_name (l ∷ labels) = (length l % 256) ∷ (l ++ wire_name labels)
