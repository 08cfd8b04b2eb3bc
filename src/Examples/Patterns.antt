-- ===== src/Examples/Patterns.antt =====
-- The comparison of the regex engines at concrete inputs.
use elodin.Common.{◌+◌, ◌≤◌, ◌≡◌, refl, Bool, List, [], ◌∷◌, All, Bytes, codes, ok}
use elodin.Text.{str_eq, contains, split, trim_suffix}
use elodin.Re2Diff.{Tally, no_tally, urlfilter_bits, compare_all, read_driver, wire_name}
use elodin.Re2Diff.Tallied.{
  IsAnswer, count_pairs, keeps, refuses, declines, diverges, compare_all-counts,
}

-- an engine that blocks a name that contains the pattern
abbrev blocks : Bytes → Bytes → Bool
blocks pattern name = contains name pattern

abbrev names : List Bytes
names = codes "ab" ∷ codes "ba" ∷ codes "c" ∷ []

abbrev patterns : List Bytes
patterns = codes "a" ∷ codes "(?=c)" ∷ codes "c" ∷ codes "b" ∷ []

-- the first pattern is read alike, the second and the third are refused, the last one is read otherwise
abbrev got : List Bytes
got = codes "110" ∷ codes "-" ∷ codes "-" ∷ codes "100" ∷ []

driver_read : read_driver patterns (codes "110\n-\n-\n100\n") ≡ ok got
unfolding read_driver split trim_suffix
driver_read = refl

on_the_wire : wire_name (codes "a" ∷ codes "b" ∷ []) ≡ 1 ∷ b'a' ∷ 1 ∷ b'b' ∷ 0 ∷ []
unfolding wire_name
on_the_wire = refl

got_answers : All (IsAnswer names) got
unfolding str_eq
got_answers = (refl, (refl, (refl, (refl, tt))))

compare_all-counts_example :
    (t : Tally) × (compare_all blocks names patterns got no_tally ≡ ok t)
    × (let want : Bytes → Bytes = λ p. urlfilter_bits blocks p names in
        (t.kept ≡ count_pairs keeps want patterns got)
        × (t.refused ≡ count_pairs refuses want patterns got)
        × (t.declined ≡ count_pairs declines want patterns got)
        × (t.divergent ≡ count_pairs diverges want patterns got)
        × (t.kept + t.refused ≡ 4)
        × (t.declined ≤ t.refused)
        × (t.divergent ≤ t.kept))
compare_all-counts_example = compare_all-counts blocks names patterns got refl got_answers
