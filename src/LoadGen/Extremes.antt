-- ===== src/LoadGen/Extremes.antt =====
-- The least and the most answers of a client.
use elodin.Common.{
  ℕ, ◌*◌, ◌<◌, ◌≤◌, ◌≡◌, refl, true, some, List, [], ◌∷◌, ltb, ◌==◌, if◌then◌else◌, length, arith,
  All, any,
}
use elodin.LoadGen.Clients.{Transport}
use elodin.LoadGen.Runs.{extreme_step, extremes_loop, extremes, Worker, run}
use elodin.LoadGen.Accounts.{sum, run-accounts}

All-weaken_le : (a b : ℕ) (ns : List ℕ) → a ≤ b → All (λ n. b ≤ n) ns → All (λ n. a ≤ n) ns
All-weaken_le a b [] h l = tt
All-weaken_le a b (n ∷ ns) h l = (omega arith, All-weaken_le a b ns h l.1)

-- From a least and a most so far, the loop ends with bounds on the rest that someone attains.
extremes_loop-bounds :
    (ns : List ℕ) (lo hi : ℕ)
    → (lo' hi' : ℕ) × (extremes_loop ns (some lo, hi) ≡ (some lo', hi'))
      × (lo' ≤ lo)
      × (hi ≤ hi')
      × All (λ n. lo' ≤ n) ns
      × All (λ n. n ≤ hi') ns
      × (any (λ n. n == lo') (lo ∷ ns) ≡ true)
      × (any (λ n. n == hi') (hi ∷ ns) ≡ true)
unfolding extremes_loop extreme_step
extremes_loop-bounds [] lo hi =
    (lo, hi, refl, omega arith, omega arith, tt, tt, ground arith, ground arith)
extremes_loop-bounds (n ∷ ns) lo hi =
    let (lo', hi', ends, below, above, low, high, lo_seen, hi_seen) =
      extremes_loop-bounds ns (if ltb n lo then n else lo) (if ltb hi n then n else hi) in
    (
      lo',
      hi',
      ends,
      ground arith,
      ground arith,
      (ground arith, low),
      (ground arith, high),
      ground arith,
      ground arith,
    )

-- The least and the most answers of the clients bound every client's, and are some client's own.
pub extremes_bounds :
    (n : ℕ) (ns : List ℕ)
    → (lo hi : ℕ) × (extremes (n ∷ ns) ≡ (some lo, hi))
      × All (λ k. lo ≤ k) (n ∷ ns)
      × All (λ k. k ≤ hi) (n ∷ ns)
      × (any (λ k. k == lo) (n ∷ ns) ≡ true)
      × (any (λ k. k == hi) (n ∷ ns) ≡ true)
unfolding extremes extremes_loop extreme_step
extremes_bounds n ns =
    let (lo, hi, ends, below, above, low, high, lo_seen, hi_seen) =
      extremes_loop-bounds ns n (if ltb 0 n then n else 0) in
    (lo, hi, ends, (below, low), (ground arith, high), lo_seen, ground arith)

sum-bounds :
    (lo hi : ℕ) (ns : List ℕ)
    → All (λ k. lo ≤ k) ns
    → All (λ k. k ≤ hi) ns
    → (lo * length ns ≤ sum ns) × (sum ns ≤ hi * length ns)
sum-bounds lo hi [] l h = omega arith
sum-bounds lo hi (n ∷ ns) l h =
    let (a, b) = sum-bounds lo hi ns l.1 h.1 in (grind arith, grind arith)

extremes-sum :
    (ns : List ℕ)
    → 0 < length ns
    → (lo hi : ℕ) × (extremes ns ≡ (some lo, hi))
      × (lo * length ns ≤ sum ns)
      × (sum ns ≤ hi * length ns)
extremes-sum [] h = absurd (omega arith)
extremes-sum (n ∷ ns) h =
    let (lo, hi, e, low, high, _, _) = extremes_bounds n ns in
    let (least, most) = sum-bounds lo hi (n ∷ ns) low high in (lo, hi, e, least, most)

-- The figures that a run of at least one client reports for the least and the most answers of a client,
-- times the number of clients, lie on the two sides of the number of answers.
run-extremes :
    (transport : Transport) (clients : ℕ) (workers : List Worker)
    → 0 < clients
    → All (λ w. w.client < clients) workers
    → let t = run transport clients workers in
      (lo hi : ℕ) × (extremes t.per_client ≡ (some lo, hi))
      × (lo * clients ≤ t.answered)
      × (t.answered ≤ hi * clients)
run-extremes transport clients workers p h =
    let t = run transport clients workers in
    let (by_client, _, _, size) = run-accounts transport clients workers h in
    let (lo, hi, e, least, most) = extremes-sum t.per_client (omega arith) in
    (lo, hi, e, rw (size, ← by_client) at least, rw (size, ← by_client) at most)
