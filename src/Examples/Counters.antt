-- ===== src/Examples/Counters.antt =====
-- What is read of a metrics endpoint, and the summaries of codes, at concrete inputs.
use elodin.Common.{◌≡◌, refl, ◌∷◌, [], ◌++◌, none, some, codes, Bytes}
use elodin.Experiment.Metrics.{counters, status_summary, rcode_summary, dash_text}

-- a page with a comment, two counters, a line of three fields, a number that is none and a counter again
abbrev page : Bytes
page =
    codes "# TYPE a counter"
    ++ (10 ∷ codes "a 17")
    ++ (10 ∷ codes " b  2.5")
    ++ (10 ∷ codes "c 1 2")
    ++ (10 ∷ codes "d x")
    ++ (10 ∷ codes "a 18")
    ++ (10 ∷ [])

counters-page : counters (some page) ≡ (codes "a", 18) ∷ (codes "b", 2) ∷ []
unfolding counters
counters-page = refl

counters_unreached : counters none ≡ []
unfolding counters
counters_unreached = refl

rcode_summary_three :
    rcode_summary ((5, 2) ∷ (0, 31) ∷ (9, 1) ∷ []) ≡ codes "NOERROR 31, REFUSED 2, rcode9 1"
unfolding rcode_summary
rcode_summary_three = refl

status_summary_none : status_summary [] ≡ dash_text
unfolding status_summary
status_summary_none = refl
