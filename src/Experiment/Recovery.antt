-- ===== src/Experiment/Recovery.antt =====
-- bench/cmd/rrlexp/soak.go and arms_upstream.go: the samples of an arm, and what they say of an outage.
--
-- Times are nanoseconds. A map from names to counters is a list of pairs; a counter that is missing
-- reads as 0. A difference of two counters is compared with 0 or scaled and compared, so `-` on ℕ,
-- which stops at 0, decides as the difference of `int64`s does; a test that takes 200 ms off a time is
-- written with 200 ms added to the other side. `float64(mf) >= 0.95*float64(mo)` is `95 * mo ≤ 100 * mf`.
-- A verdict holds its times before they are rounded and printed.
use elodin.Common.{
  ℕ, zero, suc, ◌+◌, ◌-◌, ◌*◌, Bool, true, false, not, ◌&&◌, ◌||◌, Option, none, some, List, [],
  ◌∷◌, ltb, leb, ◌==◌, if◌then◌else◌, Bytes, codes, length, get_or, drop, take,
}
use elodin.Text.{str_eq}
use elodin.Hist.{Quantile, sort}
use elodin.Experiment.Client.{Stats}

pub record Sample : Type 0 where
  pub at : ℕ
  pub ok : Bool
  pub srv : List (Bytes × ℕ)
  pub victim_offered : ℕ
  pub victim_full : ℕ
  pub victim_closed : ℕ
  pub victim_lat : ℕ
  pub attacker_offered : ℕ
  pub attacker_full : ℕ

abbrev pub no_sample : Sample
no_sample = record {
  at = 0;
  ok = false;
  srv = [];
  victim_offered = 0;
  victim_full = 0;
  victim_closed = 0;
  victim_lat = 0;
  attacker_offered = 0;
  attacker_full = 0;
}

-- `v, ok := srv[name]`
unfoldable pub counter_of : Bytes → List (Bytes × ℕ) → Option ℕ
counter_of name [] = none
counter_of name ((other, v) ∷ srv) =
    let later = counter_of name srv in if str_eq other name then some v else later

abbrev is_empty : List (Bytes × ℕ) → Bool
is_empty [] = true
is_empty (c ∷ srv) = false

-- `takeSample`, where the scrape brought `srv`
unfoldable pub take_sample : Stats → Option Stats → List (Bytes × ℕ) → ℕ → Sample
take_sample victim attacker srv at = record {
  at = at;
  ok = not (is_empty srv);
  srv = srv;
  victim_offered = victim.offered;
  victim_full = victim.full;
  victim_closed = victim.closed;
  victim_lat = length victim.lat;
  attacker_offered = elim attacker [ none ↦ 0 | some a ↦ a.offered ];
  attacker_full = elim attacker [ none ↦ 0 | some a ↦ a.full ];
}

-- the sample that round `i` of `goodSample` looks at
unfoldable pub sample_no : List Sample → Bool → ℕ → Sample
sample_no samples last i = get_or samples (if last then length samples - 1 - i else i) no_sample

-- the loop of `goodSample` with so many rounds left
unfoldable pub good_from : List Sample → Bool → ℕ → ℕ → Sample
unfolding sample_no
good_from samples last zero i = no_sample
good_from samples last (suc left) i =
    let later = good_from samples last left (i + 1) in
    let s = sample_no samples last i in if s.ok then s else later

unfoldable pub good_sample : List Sample → Bool → Sample
unfolding good_from
good_sample samples last = good_from samples last (length samples) 0

abbrev pub slack : ℕ
slack = 200000000

-- the loop of `sampleAt`, with all the samples for when it finds none
unfoldable pub sample_at_loop : List Sample → List Sample → ℕ → Sample
unfolding good_sample
sample_at_loop all [] t = good_sample all true
sample_at_loop all (s ∷ samples) t =
    let later = sample_at_loop all samples t in if s.ok && leb t (s.at + slack) then s else later

unfoldable pub sample_at : List Sample → ℕ → Sample
unfolding sample_at_loop
sample_at samples t = sample_at_loop samples samples t

-- `pctOf`: the sorted latencies of a window, at the index that the quantile gives
unfoldable pub pct_of : List ℕ → ℕ → ℕ → Quantile → ℕ
unfolding sort
pct_of lat from to q =
    if leb to from
    then 0
    else get_or (sort (take (to - from) (drop from lat))) (q (to - from - 1)) 0

-- `windowPct`: nothing where the window has no latency
unfoldable pub window_pct : List ℕ → Sample → Sample → Quantile → Option ℕ
unfolding pct_of
window_pct lat from to q =
    if leb to.victim_lat from.victim_lat
    then none
    else some (pct_of lat from.victim_lat to.victim_lat q)

abbrev pub failing_up : Bytes
failing_up = codes "elodin_upstream_up{upstream=\"failing\"}"

-- one round of the loop of `parked`, with when the gauge fell and when it rose
unfoldable pub park_round : Sample → ℕ × ℕ → ℕ × ℕ
unfolding counter_of
park_round s (down, up) = elim (counter_of failing_up s.srv) [
  | none ↦ (down, up)
  | some v ↦
      if not s.ok
      then (down, up)
      else if v == 0 && down == 0
      then (s.at, up)
      else if v == 1 && (not (down == 0) && up == 0)
      then (down, s.at)
      else (down, up)
]

unfoldable pub park_loop : List Sample → ℕ × ℕ → ℕ × ℕ
unfolding park_round
park_loop [] p = p
park_loop (s ∷ samples) p = park_loop samples (park_round s p)

-- `parkedText`
pub data Parked : Type 0 where
  never_parked : Parked
  still_parked : ℕ → Parked
  parked_from : ℕ → ℕ → Parked

unfoldable pub parked_text : ℕ → ℕ → Parked
parked_text down up =
    if down == 0 then never_parked else if up == 0 then still_parked down else parked_from down up

unfoldable pub parked : List Sample → Parked
unfolding park_loop parked_text
parked samples = let (down, up) = park_loop samples (0, 0) in parked_text down up

-- the times of the outage in a row of results
pub record Outage : Type 0 where
  pub down_at : ℕ
  pub up_at : ℕ

-- what the loop of `recovered` keeps
pub record Recovering : Type 0 where
  pub at : ℕ
  pub lost : Bool
  pub prev : Sample

unfoldable pub is_healthy : ℕ → ℕ → Bool
is_healthy mo mf = leb (95 * mo) (100 * mf)

-- the switch of `recovered`, on a window that counts
unfoldable pub recover_switch : Outage → Sample → Bool → Recovering → Recovering
recover_switch o s healthy r =
    if not healthy
    then record r { lost = r.lost || ltb (r.prev.at + slack) o.up_at; at = 0 }
    else if r.at == 0
    then record r { at = s.at }
    else r

-- one round of the loop of `recovered`
unfoldable pub recover_round : Outage → Sample → Recovering → Recovering
unfolding recover_switch is_healthy
recover_round o s r =
    let mo = s.attacker_offered - r.prev.attacker_offered in
    let mf = s.attacker_full - r.prev.attacker_full in
    if not s.ok
    then r
    else if mo == 0
    then record r { prev = s }
    else (let judged =
          if leb o.down_at (r.prev.at + slack)
          then recover_switch o s (is_healthy mo mf) r
          else r in
        record judged { prev = s })

unfoldable pub recover_loop : Outage → List Sample → Recovering → Recovering
unfolding recover_round
recover_loop o [] r = r
recover_loop o (s ∷ samples) r = recover_loop o samples (recover_round o s r)

-- `recoveredText`
pub data Recovered : Type 0 where
  never_lost not_within_arm : Recovered
  before_return : ℕ → Recovered
  within : ℕ → Recovered

unfoldable pub recovered_text : Outage → ℕ → Bool → Recovered
recovered_text o at lost =
    if not lost
    then never_lost
    else if at == 0
    then not_within_arm
    else if leb at (o.up_at + slack)
    then before_return at
    else within (at - o.up_at)

-- `recovered` of an arm with a first sample
unfoldable pub recovered : Outage → Sample → List Sample → Recovered
unfolding recover_loop recovered_text
recovered o first samples =
    let r = recover_loop o samples (record { at = 0; lost = false; prev = first }) in
    recovered_text o r.at r.lost
