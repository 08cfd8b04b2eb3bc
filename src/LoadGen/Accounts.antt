-- ===== src/LoadGen/Accounts.antt =====
-- The counters of a run agree with one another.
use elodin.Common.{
  ℕ, zero, suc, ◌+◌, ◌<◌, ◌≡◌, refl, ap, Bool, true, false, List, [], ◌∷◌, ◌++◌, Bytes, replicate,
  length, length-append, arith, All,
}
use elodin.LoadGen.Clients.{Transport, rcode_name}
use elodin.LoadGen.Runs.{
  count_rcode, count_client, count_answer, Totals, dialled, gave_up, Round, answered_with, failed,
  redials, slot_loop, Worker, run_workers, start_totals, run, Once, not_dialled, not_answered,
  once_answered, OnceTotals, once_step, once_loop, run_once, Shake, no_handshake, no_answer, shaken,
  ShakeTotals, shake_loop,
}

abbrev pub sum : List ℕ → ℕ
sum [] = 0
sum (n ∷ ns) = n + sum ns

abbrev pub total : List (Bytes × ℕ) → ℕ
total [] = 0
total ((_, n) ∷ m) = n + total m

total-count_rcode :
    (name : Bytes) (m : List (Bytes × ℕ)) → total (count_rcode name m) ≡ suc (total m)
unfolding count_rcode
total-count_rcode name [] = refl
total-count_rcode name ((other, n) ∷ m) = ground (arith, total-count_rcode name m)

sum-count_client : (id : ℕ) (ns : List ℕ) → id < length ns → sum (count_client id ns) ≡ suc (sum ns)
unfolding count_client
sum-count_client id [] h = absurd (omega arith)
sum-count_client zero (n ∷ ns) h = omega arith
sum-count_client (suc id) (n ∷ ns) h = omega (arith, sum-count_client id ns)

length-count_client : (id : ℕ) (ns : List ℕ) → length (count_client id ns) ≡ length ns
unfolding count_client
length-count_client id [] = refl
length-count_client zero (n ∷ ns) = refl
length-count_client (suc id) (n ∷ ns) = ap suc (length-count_client id ns)

-- The answers that a worker measured and did not hand over, because its client gave up on dialling.
abbrev pub unreported : Bool → List Round → ℕ → ℕ
unreported stream [] kept = 0
unreported stream (answered_with rc lat true ∷ rounds) kept = unreported stream rounds (suc kept)
unreported stream (answered_with rc lat false ∷ rounds) kept = unreported stream rounds kept
unreported true (failed dialled ∷ rounds) kept = unreported true rounds kept
unreported true (failed gave_up ∷ rounds) kept = kept
unreported false (failed r ∷ rounds) kept = unreported false rounds kept

abbrev pub all_unreported : Bool → List Worker → ℕ
all_unreported stream [] = 0
all_unreported stream (w ∷ ws) = unreported stream w.rounds 0 + all_unreported stream ws

-- The books of a run: with `kept` answers in hand and `lost` answers that are never handed over.
abbrev pub Balanced : ℕ → ℕ → ℕ → Totals → Type 0
Balanced clients kept lost t =
    (t.answered ≡ sum t.per_client)
    × (t.answered ≡ total t.rcodes)
    × (t.answered ≡ length t.samples + kept + lost)
    × (length t.per_client ≡ clients)

count_answer-Balanced :
    (id rc clients kept lost : ℕ) (t : Totals)
    → id < clients
    → Balanced clients kept lost t
    → Balanced clients (suc kept) lost (count_answer id rc t)
unfolding count_answer
count_answer-Balanced id rc clients kept lost t h b = omega (
  arith,
  sum-count_client id t.per_client,
  total-count_rcode (rcode_name rc) t.rcodes,
  length-count_client id t.per_client,
)

slot_loop-Balanced :
    (stream : Bool) (id clients lost : ℕ) (rounds : List Round) (local : List ℕ) (t : Totals)
    → id < clients
    → Balanced clients (length local) lost t
    → Balanced clients 0
        (lost + unreported stream rounds (length local))
        (slot_loop stream id rounds local t)
unfolding slot_loop
slot_loop-Balanced stream id clients lost [] local t h b =
    omega (arith, length-append t.samples local)
slot_loop-Balanced stream id clients lost (answered_with rc lat true ∷ rounds) local t h b =
    let grown : length (local ++ lat ∷ []) ≡ suc (length local) =
      omega (arith, length-append local (lat ∷ [])) in
    rw grown at (
      slot_loop-Balanced stream id clients lost rounds (local ++ lat ∷ []) (count_answer id rc t) h
        (rw grown (count_answer-Balanced id rc clients (length local) lost t h b)))
slot_loop-Balanced stream id clients lost (answered_with rc lat false ∷ rounds) local t h b =
    slot_loop-Balanced stream id clients lost rounds local t h b
slot_loop-Balanced true id clients lost (failed dialled ∷ rounds) local t h b =
    slot_loop-Balanced true id clients lost rounds local
      (record t { errors = t.errors + 1; reconnects = t.reconnects + 1 }) h b
slot_loop-Balanced true id clients lost (failed gave_up ∷ rounds) local t h b = omega arith
slot_loop-Balanced false id clients lost (failed r ∷ rounds) local t h b =
    slot_loop-Balanced false id clients lost rounds local (record t { errors = t.errors + 1 }) h b

run_workers-Balanced :
    (transport : Transport) (clients lost : ℕ) (workers : List Worker) (t : Totals)
    → All (λ w. w.client < clients) workers
    → Balanced clients 0 lost t
    → Balanced clients 0
        (lost + all_unreported (redials transport) workers)
        (run_workers transport workers t)
unfolding run_workers
run_workers-Balanced transport clients lost [] t h b = omega arith
run_workers-Balanced transport clients lost (w ∷ ws) t h b = omega (
  arith,
  run_workers-Balanced transport clients (lost + unreported (redials transport) w.rounds 0) ws
      (slot_loop (redials transport) w.client w.rounds [] t) h.1
      (slot_loop-Balanced (redials transport) w.client clients lost w.rounds [] t h.0 b),
)

sum-zeros : (n : ℕ) → (sum (replicate n 0) ≡ 0) × (length {A = ℕ} (replicate n 0) ≡ n)
sum-zeros zero = (refl, refl)
sum-zeros (suc n) = omega (arith, sum-zeros n)

pub run-accounts :
    (transport : Transport) (clients : ℕ) (workers : List Worker)
    → All (λ w. w.client < clients) workers
    → let t = run transport clients workers in
      (t.answered ≡ sum t.per_client)
      × (t.answered ≡ total t.rcodes)
      × (t.answered ≡ length t.samples + all_unreported (redials transport) workers)
      × (length t.per_client ≡ clients)
unfolding run start_totals
run-accounts transport clients workers h = omega (
  arith,
  run_workers-Balanced transport clients 0 workers (start_totals clients) h
      (omega (arith, sum-zeros clients)),
)

once_loop-accounts :
    (os : List Once) (t : OnceTotals)
    → let t' = once_loop os t in
      (t'.answered + t'.errors ≡ t.answered + t.errors + length os)
      × (t'.answered + total t.rcodes ≡ t.answered + total t'.rcodes)
      × (t'.answered + length t.samples ≡ t.answered + length t'.samples)
      × (length t'.held ≡ length t.held + length os)
unfolding once_loop once_step
once_loop-accounts [] t = omega arith
once_loop-accounts (not_dialled ∷ os) t =
    omega
      (arith, once_loop-accounts os (once_step not_dialled t), length-append t.held (false ∷ []))
once_loop-accounts (not_answered ∷ os) t =
    omega
      (arith, once_loop-accounts os (once_step not_answered t), length-append t.held (true ∷ []))
once_loop-accounts (once_answered rc lat ∷ os) t = omega (
  arith,
  once_loop-accounts os (once_step (once_answered rc lat) t),
  length-append t.held (true ∷ []),
  length-append t.samples (lat ∷ []),
  total-count_rcode (rcode_name rc) t.rcodes,
)

-- Every client of `runOnce` is counted as answered or as an error and has its place among the held
-- connections, and each answer is counted under its rcode and has its latency recorded.
pub run_once-accounts :
    (os : List Once)
    → let t = run_once os in
      (t.answered + t.errors ≡ length os)
      × (t.answered ≡ total t.rcodes)
      × (t.answered ≡ length t.samples)
      × (length t.held ≡ length os)
unfolding run_once
run_once-accounts os = omega (
  arith,
  once_loop-accounts os (record { answered = 0; errors = 0; rcodes = []; samples = []; held = [] }),
)

shake_loop-accounts :
    (ss : List Shake) (local : List ℕ) (t : ShakeTotals)
    → let t' = shake_loop ss local t in
      (t'.done + t'.errors ≡ t.done + t.errors + length ss)
      × (length t'.samples + t.done ≡ length t.samples + length local + t'.done)
unfolding shake_loop
shake_loop-accounts [] local t = omega (arith, length-append t.samples local)
shake_loop-accounts (no_handshake ∷ ss) local t =
    omega (arith, shake_loop-accounts ss local (record t { errors = t.errors + 1 }))
shake_loop-accounts (no_answer ∷ ss) local t =
    omega (arith, shake_loop-accounts ss local (record t { errors = t.errors + 1 }))
shake_loop-accounts (shaken lat ∷ ss) local t = omega (
  arith,
  shake_loop-accounts ss (local ++ lat ∷ []) (record t { done = t.done + 1 }),
  length-append local (lat ∷ []),
)
