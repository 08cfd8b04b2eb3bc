-- ===== src/Bench/Survey.antt =====
-- bench/cmd/bench/survey.go: the names, the questions, and what the report counts.
--
-- The lines that the scanner gives are input, and so are how the calls of the operating system go, the
-- identifier drawn for a query and the datagrams that arrive before the deadline.
use elodin.Common.{
  ℕ, ◌+◌, Bool, false, not, ◌&&◌, ◌||◌, Option, none, some, List, [], ◌∷◌, ◌++◌, ◌==◌,
  if◌then◌else◌, Bytes, codes, ok, err, bool_eq, is_none,
}
use elodin.Text.{str_eq, has_prefix, fields, trim_space, decimal}
use elodin.DnsWire.{type_a, query_do, parse_reply}
use elodin.DnsWire

pub record Domain : Type 0 where
  pub name : Bytes
  pub bogus : Bool

-- a line of fields: the first is the name
unfoldable pub domain_of : List Bytes → Domain
unfolding str_eq
domain_of [] = record { name = []; bogus = false }
domain_of (name ∷ []) = record { name = name; bogus = false }
domain_of (name ∷ mark ∷ more) = record { name = name; bogus = str_eq mark (codes "bogus") }

-- a line is passed over if it is blank or a comment
unfoldable pub is_passed : Bytes → Bool
unfolding str_eq has_prefix
is_passed line = str_eq line [] || has_prefix line (codes "#")

-- `readDomains` over the lines of the file
unfoldable pub read_domains : List Bytes → List Domain
unfolding is_passed domain_of trim_space fields
read_domains [] = []
read_domains (text ∷ lines) =
    let line = trim_space text in
    let out = read_domains lines in if is_passed line then out else domain_of (fields line) ∷ out

pub data Error : Type 0 where
  not_dialled deadline_not_set not_written not_read : Error
  bad_reply : DnsWire.Error → Error

-- how the calls of one attempt go
pub record Attempt : Type 0 where
  pub id : ℕ
  pub dialled : Bool
  pub deadline_set : Bool
  pub written : Bool
  pub arriving : List Bytes

abbrev pub is_some : Option Error → Bool
is_some e = not (is_none e)

-- an rcode, the AD bit, and the error
abbrev pub Asked : Type 0
Asked = ℕ × Bool × Option Error

abbrev pub failed_with : Error → Asked
failed_with e = (0, false, some e)

-- the loop of `askDOOnce`: a reply to another query is passed over
unfoldable pub read_answer : ℕ → List Bytes → Asked
read_answer id [] = failed_with not_read
read_answer id (datagram ∷ more) =
    let later = read_answer id more in
    elim (parse_reply datagram) [
      | err e ↦ failed_with (bad_reply e)
      | ok reply ↦ if not (reply.id == id) then later else (reply.rcode, reply.ad, none)
    ]

-- the query that an attempt writes
unfoldable pub do_query : Bytes → Attempt → Bytes
do_query name a = query_do a.id name type_a 1232

unfoldable pub ask_do_once : Attempt → Asked
unfolding read_answer
ask_do_once a =
    if not a.dialled
    then failed_with not_dialled
    else if not a.deadline_set
    then failed_with deadline_not_set
    else if not a.written
    then failed_with not_written
    else read_answer a.id a.arriving

-- the rounds of `askDO`, with what the round before left
unfoldable pub ask_rounds : List Attempt → Asked → Asked
unfolding ask_do_once
ask_rounds [] last = last
ask_rounds (a ∷ more) last =
    let asked = ask_do_once a in
    let again = ask_rounds more asked in
    if not (is_some asked.2) then (asked.0, asked.1, none) else again

unfoldable pub ask_do : Attempt → Attempt → Asked
unfolding ask_rounds
ask_do first second = ask_rounds (first ∷ second ∷ []) (0, false, none)

pub record Verdict : Type 0 where
  pub domain : Bytes
  pub want_bogus : Bool
  pub elodin_rcode : ℕ
  pub elodin_ad : Bool
  pub elodin_err : Option Error
  pub ref_rcode : ℕ
  pub ref_ad : Bool
  pub ref_err : Option Error

unfoldable pub agrees : Verdict → Bool
agrees v = v.elodin_rcode == v.ref_rcode && bool_eq v.elodin_ad v.ref_ad

-- the verdict on one name, from the attempts at elodin and at the reference
unfoldable pub verdict_on : Domain → Attempt × Attempt → Attempt × Attempt → Verdict
unfolding ask_do
verdict_on d here there =
    let mine = ask_do here.0 here.1 in
    let theirs = ask_do there.0 there.1 in
    record {
      domain = d.name;
      want_bogus = d.bogus;
      elodin_rcode = mine.0;
      elodin_ad = mine.1;
      elodin_err = mine.2;
      ref_rcode = theirs.0;
      ref_ad = theirs.1;
      ref_err = theirs.2;
    }

-- the figures of `renderSurvey`
pub record Figures : Type 0 where
  pub agreed : ℕ
  pub disagreed : ℕ
  pub failed : ℕ
  pub bogus_refused : ℕ
  pub bogus_served : ℕ
  pub ad_here : ℕ
  pub ad_there : ℕ
  pub mismatches : List Verdict
  pub errored : List Verdict

abbrev pub no_figures : Figures
no_figures = record {
  agreed = 0;
  disagreed = 0;
  failed = 0;
  bogus_refused = 0;
  bogus_served = 0;
  ad_here = 0;
  ad_there = 0;
  mismatches = [];
  errored = [];
}

abbrev pub one_if : Bool → ℕ
one_if b = if b then 1 else 0

-- one round of the loop of `renderSurvey`
unfoldable pub count_verdict : Verdict → Figures → Figures
unfolding agrees
count_verdict v f =
    let signed = record f {
      ad_here = f.ad_here + one_if v.elodin_ad;
      ad_there = f.ad_there + one_if v.ref_ad;
    } in
    if is_some v.elodin_err || is_some v.ref_err
    then record f { failed = f.failed + 1; errored = f.errored ++ v ∷ [] }
    else if v.want_bogus
    then (if v.elodin_rcode == 2
        then record f { bogus_refused = f.bogus_refused + 1 }
        else record f { bogus_served = f.bogus_served + 1; mismatches = f.mismatches ++ v ∷ [] })
    else if agrees v
    then record signed { agreed = signed.agreed + 1 }
    else record signed {
      disagreed = signed.disagreed + 1;
      mismatches = signed.mismatches ++ v ∷ [];
    }

unfoldable pub count_verdicts : List Verdict → Figures → Figures
unfolding count_verdict
count_verdicts [] f = f
count_verdicts (v ∷ results) f = count_verdicts results (count_verdict v f)

-- the side whose error the report gives
unfoldable pub errored_side : Verdict → Bytes × Option Error
errored_side v =
    if is_some v.elodin_err then (codes "elodin", v.elodin_err) else (codes "reference", v.ref_err)

unfoldable pub rcode_name : ℕ → Bytes
unfolding decimal
rcode_name rc =
    if rc == 0
    then codes "noerror"
    else if rc == 2
    then codes "servfail"
    else if rc == 3
    then codes "nxdomain"
    else if rc == 5
    then codes "refused"
    else codes "rcode" ++ decimal rc

unfoldable pub describe_answer : ℕ → Bool → Bytes
unfolding rcode_name
describe_answer rcode ad = let name = rcode_name rcode in if ad then name ++ codes " + AD" else name
