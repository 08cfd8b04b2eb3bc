-- ===== src/Bench/Measured.antt =====
-- The rows of the sections that check what was answered.
use elodin.Common.{
  ℕ, ◌*◌, ◌≡◌, ◌≢◌, ◌≤◌, refl, Bool, true, false, ltb, ◌==◌, List, [], ◌∷◌, ◌++◌, map, Bytes,
  Result, ok, err, if◌then◌else◌, arith,
}
use elodin.Bench.Load.{Report, Run, nothing_answered, only, rcode_count, expect_rcode, label}
use elodin.Bench.Competitors.{udp, tcp}
use elodin.Bench.Servers.{Server}
use elodin.Bench.Acts.{
  Trouble, World, Act, pure, fail_with, ◌>>=◌, ◌>>◌, refit, unexpected, within, wrap, for_each,
}
use elodin.Bench.Runs.{LoadOpts, asks}
use elodin.Bench.Machine.{Machine, release, expect, measure_as}
use elodin.Bench.Tables.{noerror, latency_loop, latency_per_kind, latency}
use elodin.Bench.Scaling.{expected, misses_row, misses_at, misses}
use elodin.Bench.Cells.{text, server, qps, p50, p99, errors, ceiling, Line, row}
use elodin.Bench.Giving.{
  Holds, Gives, pure-Gives, fail_with-Gives, of_result-Gives, attempt-Gives, >>=-Gives, then-Gives,
}

-- something was answered, and nine answers of ten with that rcode
abbrev pub Mostly : Bytes → Report → Type 0
Mostly want r = (r.answered ≢ 0) × (r.answered * 9 ≤ rcode_count want r.rcodes * 10)

pub expect-Mostly : (want : Bytes) (r : Run) → Holds (λ _. Mostly want r.0) (expect want r)
unfolding expect expect_rcode
expect-Mostly want (r, s) =
    step (r.answered == 0) (ltb (rcode_count want r.rcodes * 10) (r.answered * 9)) refl refl
  where
    step :
        (a b : Bool)
        → (r.answered == 0) ≡ a
        → ltb (rcode_count want r.rcodes * 10) (r.answered * 9) ≡ b
        → Holds {A = Unit {0}}
            (λ _. Mostly want r)
            (refit unexpected (
              if a
              then err nothing_answered
              else if b
              then err (only (rcode_count want r.rcodes) r.answered)
              else ok tt))
    step true b ea eb = tt
    step false true ea eb = tt
    step false false ea eb = (ground arith, ground arith)

-- the rows of a table, one for each of a list
abbrev pub Rows {ℓ} : {A : Type ℓ} → (A → Line → Type 0) → List A → List Line → Type 0
Rows P [] [] = Unit
Rows P [] (l ∷ ls) = ⊥
Rows P (x ∷ xs) [] = ⊥
Rows P (x ∷ xs) (l ∷ ls) = P x l × Rows P xs ls

module _ {ℓ} {A : Type ℓ} (P : A → Line → Type 0) where
  Rows-append :
      (xs ys : List A) (ls ks : List Line)
      → Rows P xs ls
      → Rows P ys ks
      → Rows P (xs ++ ys) (ls ++ ks)
  Rows-append [] ys [] ks r s = s
  Rows-append [] ys (l ∷ ls) ks r s = absurd r
  Rows-append (x ∷ xs) ys [] ks r s = absurd r
  Rows-append (x ∷ xs) ys (l ∷ ls) ks (p, r) s = (p, Rows-append xs ys ls ks r s)

-- each of a list with each of another
abbrev pub pairs {ℓ κ} : {A : Type ℓ} {B : Type κ} → List A → List B → List (A × B)
pairs [] bs = []
pairs (a ∷ more) bs = map (λ b. (a, b)) bs ++ pairs more bs

for_each-Rows {ℓ κ} :
    {A : Type ℓ} {B : Type κ} (P : A × B → Line → Type 0) (bs : List B) {f : A → Act (List Line)}
    → ((x : A) → Gives (Rows P (map (λ b. (x, b)) bs)) (f x))
    → (xs : List A) → Gives (Rows P (pairs xs bs)) (for_each f xs)
unfolding for_each
for_each-Rows P bs each [] = pure-Gives [] tt
for_each-Rows P bs each (x ∷ xs) = >>=-Gives (Rows P (map (λ b. (x, b)) bs)) (each x) λ rows given.
    >>=-Gives (Rows P (pairs xs bs)) (for_each-Rows P bs each xs) λ more given'.
      pure-Gives (rows ++ more)
        (Rows-append P (map (λ b. (x, b)) bs) (pairs xs bs) rows more given given')

-- the row of a server over a transport: the figures of one report, mostly of names that exist
abbrev pub IsLatencyRow : Bytes × Bytes → Line → Type 0
IsLatencyRow (kind, t) l =
    (r : Report) × (l ≡ row (server kind ∷ text (label t) ∷ qps r ∷ p50 r ∷ p99 r ∷ []))
    × Mostly noerror r

-- the row of a server behind an upstream that takes a time to answer
abbrev pub IsMissesRow : Machine → ℕ × Bytes → Line → Type 0
IsMissesRow m (rtt, kind) l =
    (r : Report) × (l
      ≡ row (
          server kind
          ∷ text (m.time_text rtt)
          ∷ qps r
          ∷ p50 r
          ∷ p99 r
          ∷ errors r
          ∷ ceiling 2000 rtt
          ∷ []))
    × Mostly noerror r

module _ (m : Machine) where
  measure_as-Gives :
      (want : Bytes) (s : Server) (o : LoadOpts)
      → Gives (λ r. Mostly want r.0) (measure_as want m s o)
  unfolding measure_as
  measure_as-Gives want s o = then-Gives _ λ r.
      >>=-Gives (λ _. Mostly want r.0) (of_result-Gives (expect want r) (expect-Mostly want r))
        λ u mostly. pure-Gives r mostly

  latency_loop-Gives :
      (kind : Bytes) (s : Server) (ts : List Bytes)
      → Gives (Rows IsLatencyRow (map (λ t. (kind, t)) ts)) (latency_loop m kind s ts)
  unfolding latency_loop
  latency_loop-Gives kind s [] = then-Gives _ λ u. pure-Gives [] tt
  latency_loop-Gives kind s (t ∷ ts) =
      >>=-Gives (Holds (λ r. Mostly noerror r.0))
        (attempt-Gives (measure_as-Gives noerror s (asks t 100)))
        (step (latency_loop-Gives kind s ts))
    where
      step :
          Gives (Rows IsLatencyRow (map (λ t. (kind, t)) ts)) (latency_loop m kind s ts)
          → (result : Result Trouble Run) → Holds (λ r. Mostly noerror r.0) result
          → Gives
              (Rows IsLatencyRow (map (λ t. (kind, t)) (t ∷ ts)))
              (elim result as (λ _. Act (List Line)) [
                | err e ↦ release s >> fail_with (within (kind ∷ t ∷ []) e)
                | ok r ↦ latency_loop m kind s ts >>= λ rows.
                    pure
                      (row (server kind ∷ text (label t) ∷ qps r.0 ∷ p50 r.0 ∷ p99 r.0 ∷ []) ∷ rows)
              ])
      step later (err e) mostly = then-Gives _ λ u. fail_with-Gives _
      step later (ok r) mostly =
          >>=-Gives (Rows IsLatencyRow (map (λ t. (kind, t)) ts)) later
            λ rows given. pure-Gives _ ((r.0, refl, mostly), given)

  latency_per_kind-Gives :
      (kind : Bytes)
      → Gives (Rows IsLatencyRow (map (λ t. (kind, t)) (udp ∷ tcp ∷ []))) (latency_per_kind m kind)
  unfolding latency_per_kind
  latency_per_kind-Gives kind = then-Gives _ λ s. latency_loop-Gives kind s (udp ∷ tcp ∷ [])

  latency-Gives : Gives (λ s. Rows IsLatencyRow (pairs m.kinds (udp ∷ tcp ∷ [])) s.body) (latency m)
  unfolding latency
  latency-Gives =
      >>=-Gives (Rows IsLatencyRow (pairs m.kinds (udp ∷ tcp ∷ [])))
        (for_each-Rows IsLatencyRow (udp ∷ tcp ∷ []) latency_per_kind-Gives m.kinds)
        λ rows given. pure-Gives _ given

  expected-Mostly :
      (result : Result Trouble Run) → Holds (λ r. Mostly noerror r.0) (expected result)
  expected-Mostly (err e) = tt
  expected-Mostly (ok r) = step (expect noerror r) (expect-Mostly noerror r)
    where
      step :
          (checked : Result Trouble (Unit {0}))
          → Holds (λ _. Mostly noerror r.0) checked
          → Holds
              (λ r. Mostly noerror r.0)
              (elim checked as (λ _. Result Trouble Run) [ err e ↦ err e | ok _ ↦ ok r ])
      step (err e) h = tt
      step (ok u) h = h

  misses_row-Gives :
      (rtt : ℕ) (mock kind : Bytes)
      → Gives (Rows (IsMissesRow m) ((rtt, kind) ∷ [])) (misses_row m rtt mock kind)
  unfolding misses_row
  misses_row-Gives rtt mock kind = then-Gives _ λ s. then-Gives _ λ result. then-Gives _ λ u.
      >>=-Gives (λ r. Mostly noerror r.0)
        (of_result-Gives (wrap (kind ∷ m.time_text rtt ∷ []) (expected result))
          (wrapped (expected result) (expected-Mostly result)))
        λ r mostly. pure-Gives _ ((r.0, refl, mostly), tt)
    where
      wrapped :
          (x : Result Trouble Run)
          → Holds (λ r. Mostly noerror r.0) x
          → Holds (λ r. Mostly noerror r.0) (wrap (kind ∷ m.time_text rtt ∷ []) x)
      wrapped (err e) h = tt
      wrapped (ok r) h = h

  misses_kinds-Gives :
      (rtt : ℕ) (mock : Bytes) (kinds : List Bytes)
      → Gives
          (Rows (IsMissesRow m) (map (λ kind. (rtt, kind)) kinds))
          (for_each (misses_row m rtt mock) kinds)
  unfolding for_each
  misses_kinds-Gives rtt mock [] = pure-Gives [] tt
  misses_kinds-Gives rtt mock (kind ∷ kinds) =
      >>=-Gives (Rows (IsMissesRow m) ((rtt, kind) ∷ [])) (misses_row-Gives rtt mock kind)
        λ rows given.
          >>=-Gives (Rows (IsMissesRow m) (map (λ kind. (rtt, kind)) kinds))
            (misses_kinds-Gives rtt mock kinds)
            λ more given'. pure-Gives (rows ++ more) (
              Rows-append (IsMissesRow m) ((rtt, kind) ∷ []) (map (λ kind. (rtt, kind)) kinds) rows
                more given given')

  misses-Gives :
      Gives (λ s. Rows (IsMissesRow m) (pairs (20000000 ∷ 5000000 ∷ []) m.kinds) s.body) (misses m)
  unfolding misses misses_at
  misses-Gives =
      >>=-Gives (Rows (IsMissesRow m) (pairs (20000000 ∷ 5000000 ∷ []) m.kinds))
        (for_each-Rows (IsMissesRow m) m.kinds
          (λ rtt. then-Gives _ λ mock. misses_kinds-Gives rtt mock m.kinds) _)
        λ rows given. pure-Gives _ given

-- The table of `latency` has one row for each server over UDP and over TCP, in that order, and the table
-- of `misses` one for each server behind an upstream of 20 ms and then of 5 ms; the figures of a row are
-- those of one report, in which something was answered, nine of ten of the answers being NOERROR.
pub measured-Rows :
    (m : Machine) (w : World)
    → Holds (λ s. Rows IsLatencyRow (pairs m.kinds (udp ∷ tcp ∷ [])) s.body) (latency m w).0
      × Holds
          (λ s. Rows (IsMissesRow m) (pairs (20000000 ∷ 5000000 ∷ []) m.kinds) s.body)
          (misses m w).0
measured-Rows m w = ((latency-Gives m).gives w, (misses-Gives m).gives w)
