-- ===== src/LoadGen/Runs.antt =====
-- The loops of the load generator and what they count.
--
-- A worker is one of the goroutines of a client, given by how its rounds went; the loop of `run` ends
-- when the rounds do, at the deadline. The counters are atomic and the maps are under a mutex, so the
-- workers' additions commute, and the model makes them one worker after the other.
use elodin.Common.{
  ℕ, zero, suc, ◌+◌, Bool, true, false, Option, none, some, List, [], ◌∷◌, ◌++◌, ltb, if◌then◌else◌,
  Bytes, replicate,
}
use elodin.Text.{str_eq}
use elodin.LoadGen.Clients.{Transport, tcp, dot, rcode_name}

-- `rcodes[name]++`
unfoldable pub count_rcode : Bytes → List (Bytes × ℕ) → List (Bytes × ℕ)
count_rcode name [] = (name, 1) ∷ []
count_rcode name ((other, n) ∷ rcodes) =
    if str_eq other name then (other, suc n) ∷ rcodes else (other, n) ∷ count_rcode name rcodes

-- `perClient[id].Add(1)`
unfoldable pub count_client : ℕ → List ℕ → List ℕ
count_client id [] = []
count_client zero (n ∷ ns) = suc n ∷ ns
count_client (suc id) (n ∷ ns) = n ∷ count_client id ns

pub record Totals : Type 0 where
  pub answered : ℕ
  pub errors : ℕ
  pub reconnects : ℕ
  pub per_client : List ℕ
  pub rcodes : List (Bytes × ℕ)
  pub samples : List ℕ

-- how a client that lost its connection fared: it dialled again, or the deadline passed first
pub data Redial : Type 0 where
  dialled gave_up : Redial

-- a query answered with an rcode after a time, asked in the measured window or before it; or one failed
pub data Round : Type 0 where
  answered_with : ℕ → ℕ → Bool → Round
  failed : Redial → Round

abbrev pub redials : Transport → Bool
redials tcp = true
redials dot = true
redials _ = false

unfoldable pub count_answer : ℕ → ℕ → Totals → Totals
unfolding count_client count_rcode
count_answer id rc t = record t {
  answered = t.answered + 1;
  per_client = count_client id t.per_client;
  rcodes = count_rcode (rcode_name rc) t.rcodes;
}

-- the loop of one worker of `run`; `local` is what it has measured and not handed over
unfoldable pub slot_loop : Bool → ℕ → List Round → List ℕ → Totals → Totals
slot_loop stream id [] local t = record t { samples = t.samples ++ local }
slot_loop stream id (answered_with rc lat true ∷ rounds) local t =
    slot_loop stream id rounds (local ++ lat ∷ []) (count_answer id rc t)
slot_loop stream id (answered_with rc lat false ∷ rounds) local t =
    slot_loop stream id rounds local t
slot_loop true id (failed dialled ∷ rounds) local t =
    slot_loop true id rounds local
      (record t { errors = t.errors + 1; reconnects = t.reconnects + 1 })
slot_loop true id (failed gave_up ∷ rounds) local t = record t { errors = t.errors + 1 }
slot_loop false id (failed redial ∷ rounds) local t =
    slot_loop false id rounds local (record t { errors = t.errors + 1 })

pub record Worker : Type 0 where
  pub client : ℕ
  pub rounds : List Round

unfoldable pub run_workers : Transport → List Worker → Totals → Totals
run_workers transport [] t = t
run_workers transport (w ∷ workers) t =
    run_workers transport workers (slot_loop (redials transport) w.client w.rounds [] t)

unfoldable pub start_totals : ℕ → Totals
start_totals clients = record {
  answered = 0;
  errors = 0;
  reconnects = 0;
  per_client = replicate clients 0;
  rcodes = [];
  samples = [];
}

unfoldable pub run : Transport → ℕ → List Worker → Totals
unfolding run_workers start_totals
run transport clients workers = run_workers transport workers (start_totals clients)

-- one round of the loop over `perClient`; `none` is the `-1` that `minC` starts from
unfoldable pub extreme_step : ℕ → Option ℕ × ℕ → Option ℕ × ℕ
extreme_step n (none, max_c) = (some n, if ltb max_c n then n else max_c)
extreme_step n (some min_c, max_c) =
    (some (if ltb n min_c then n else min_c), if ltb max_c n then n else max_c)

unfoldable pub extremes_loop : List ℕ → Option ℕ × ℕ → Option ℕ × ℕ
extremes_loop [] s = s
extremes_loop (n ∷ ns) s = extremes_loop ns (extreme_step n s)

unfoldable pub extremes : List ℕ → Option ℕ × ℕ
unfolding extremes_loop
extremes per_client = extremes_loop per_client (none, 0)

-- how one client of `runOnce` fared
pub data Once : Type 0 where
  not_dialled : Once
  not_answered : Once
  once_answered : ℕ → ℕ → Once

pub record OnceTotals : Type 0 where
  pub answered : ℕ
  pub errors : ℕ
  pub rcodes : List (Bytes × ℕ)
  pub samples : List ℕ
  pub held : List Bool

-- one client of `runOnce`; `held` says which clients hold a connection
unfoldable pub once_step : Once → OnceTotals → OnceTotals
unfolding count_rcode
once_step not_dialled t = record t { errors = t.errors + 1; held = t.held ++ false ∷ [] }
once_step not_answered t = record t { errors = t.errors + 1; held = t.held ++ true ∷ [] }
once_step (once_answered rc lat) t = record t {
  answered = t.answered + 1;
  rcodes = count_rcode (rcode_name rc) t.rcodes;
  samples = t.samples ++ lat ∷ [];
  held = t.held ++ true ∷ [];
}

unfoldable pub once_loop : List Once → OnceTotals → OnceTotals
once_loop [] t = t
once_loop (o ∷ os) t = once_loop os (once_step o t)

unfoldable pub run_once : List Once → OnceTotals
unfolding once_loop
run_once clients =
    once_loop clients (record { answered = 0; errors = 0; rcodes = []; samples = []; held = [] })

-- one iteration of `runHandshake`
pub data Shake : Type 0 where
  no_handshake : Shake
  no_answer : Shake
  shaken : ℕ → Shake

pub record ShakeTotals : Type 0 where
  pub done : ℕ
  pub errors : ℕ
  pub samples : List ℕ

unfoldable pub shake_loop : List Shake → List ℕ → ShakeTotals → ShakeTotals
shake_loop [] local t = record t { samples = t.samples ++ local }
shake_loop (no_handshake ∷ rest) local t =
    shake_loop rest local (record t { errors = t.errors + 1 })
shake_loop (no_answer ∷ rest) local t = shake_loop rest local (record t { errors = t.errors + 1 })
shake_loop (shaken lat ∷ rest) local t =
    shake_loop rest (local ++ lat ∷ []) (record t { done = t.done + 1 })

unfoldable pub run_handshake : List (List Shake) → ShakeTotals → ShakeTotals
unfolding shake_loop
run_handshake [] t = t
run_handshake (w ∷ workers) t = run_handshake workers (shake_loop w [] t)
