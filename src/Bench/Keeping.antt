-- ===== src/Bench/Keeping.antt =====
-- What the functions of the harness leave running, in general.
use elodin.Common.{
  ℕ, ◌≡◌, refl, ap, ◌∙◌, Bool, true, false, ◌||◌, codes, List, [], ◌∷◌, if◌then◌else◌, Bytes,
  Result, ok, err, value, is_none,
}
use elodin.Text.{str_eq}
use elodin.Bench.Options.{ServerOpts}
use elodin.Bench.Servers.{StartError, Server, stop, start_server}
use elodin.Bench.Lifetimes.{IsStarted, stop_first, start_server-IsStarted}
use elodin.Bench.Acts.{
  Trouble, World, Act, pure, fail_with, next, ◌>>=◌, ◌>>◌, attempt, of_result, for_each, reading,
  context,
}
use elodin.Bench.Machine.{Machine, started, start, release, deferred}

-- what runs afterwards is what ran before
pub record Keeps {ℓ} {A : Type ℓ} (a : Act A) : Type 0 where
  pub keeps : (w : World) → (a w).1.live ≡ w.live

-- likewise, and there is no error
pub record Calm {ℓ} {A : Type ℓ} (a : Act A) : Type 0 where
  pub calm : (w : World) → (is_none (value (a w).0) ≡ false) × ((a w).1.live ≡ w.live)

-- what runs afterwards is what ran before, without the server
pub record Releases {ℓ} {A : Type ℓ} (s : Server) (a : Act A) : Type 0 where
  pub releases : (w : World) → (a w).1.live ≡ stop s.process w.live

module _ {ℓ κ} {A : Type ℓ} {B : Type κ} {a : Act A} {f : A → Act B} where
  pub >>=-Keeps : Keeps a → ((x : A) → Keeps (f x)) → Keeps (a >>= f)
  unfolding ◌>>=◌
  >>=-Keeps kept later = record { keeps = λ w. step w (a w).0 (a w).1 (kept.keeps w) }
    where
      step :
          (w : World) (r : Result Trouble A) (v : World)
          → v.live ≡ w.live
          → (next f (r, v)).1.live ≡ w.live
      step w (ok x) v same = (later x).keeps v ∙ same
      step w (err e) v same = same

  pub >>=-Calm : Calm a → ((x : A) → Calm (f x)) → Calm (a >>= f)
  unfolding ◌>>=◌
  >>=-Calm c later = record { calm = λ w. step w (a w).0 (a w).1 (c.calm w).0 (c.calm w).1 }
    where
      step :
          (w : World) (r : Result Trouble A) (v : World)
          → is_none (value r) ≡ false
          → v.live ≡ w.live
          → (is_none (value (next f (r, v)).0) ≡ false) × ((next f (r, v)).1.live ≡ w.live)
      step w (ok x) v fine same = (((later x).calm v).0, ((later x).calm v).1 ∙ same)
      step w (err e) v fine same = absurd cc

  pub >>=-Releases : {s : Server} → Calm a → ((x : A) → Releases s (f x)) → Releases s (a >>= f)
  unfolding ◌>>=◌
  >>=-Releases {s} c later = record {
    releases = λ w. step w (a w).0 (a w).1 (c.calm w).0 (c.calm w).1;
  }
    where
      step :
          (w : World) (r : Result Trouble A) (v : World)
          → is_none (value r) ≡ false
          → v.live ≡ w.live
          → (next f (r, v)).1.live ≡ stop s.process w.live
      step w (ok x) v fine same = (later x).releases v ∙ ap (stop s.process) same
      step w (err e) v fine same = absurd cc

  pub Releases->>= : {s : Server} → Releases s a → ((x : A) → Keeps (f x)) → Releases s (a >>= f)
  unfolding ◌>>=◌
  Releases->>= {s} r later = record { releases = λ w. step w (a w).0 (a w).1 (r.releases w) }
    where
      step :
          (w : World) (r : Result Trouble A) (v : World)
          → v.live ≡ stop s.process w.live
          → (next f (r, v)).1.live ≡ stop s.process w.live
      step w (ok x) v same = (later x).keeps v ∙ same
      step w (err e) v same = same

-- a property of what follows a result, on both branches
pub either {ℓ κ μ} :
    {A : Type ℓ} {B : Type κ} (P : B → Type μ) {g : Trouble → B} {f : A → B}
    → ((e : Trouble) → P (g e))
    → ((x : A) → P (f x))
    → (r : Result Trouble A) → P (elim r [ err e ↦ g e | ok x ↦ f x ])
either P bad fine (err e) = bad e
either P bad fine (ok x) = fine x

-- likewise of a test
pub either_way {ℓ κ} :
    {B : Type ℓ} (P : B → Type κ) {x y : B} → P x → P y → (b : Bool) → P (if b then x else y)
either_way P px py true = px
either_way P px py false = py

module _ {ℓ} {A : Type ℓ} where
  pub Calm→Keeps : {a : Act A} → Calm a → Keeps a
  Calm→Keeps c = record { keeps = λ w. (c.calm w).1 }

  pub pure-Calm : (x : A) → Calm (pure x)
  unfolding pure
  pure-Calm x = record { calm = λ w. (refl, refl) }

  pub pure-Keeps : (x : A) → Keeps (pure x)
  pure-Keeps x = Calm→Keeps (pure-Calm x)

  pub fail_with-Keeps : (e : Trouble) → Keeps (fail_with {A = A} e)
  unfolding fail_with
  fail_with-Keeps e = record { keeps = λ w. refl }

  pub attempt-Calm : {a : Act A} → Keeps a → Calm (attempt a)
  unfolding attempt
  attempt-Calm kept = record { calm = λ w. (refl, kept.keeps w) }

  pub context-Keeps : (words : List Bytes) {a : Act A} → Keeps a → Keeps (context words a)
  unfolding context
  context-Keeps words kept = record { keeps = λ w. kept.keeps w }

  pub of_result-Keeps : (r : Result Trouble A) → Keeps (of_result r)
  unfolding of_result
  of_result-Keeps r = record { keeps = λ w. refl }

  pub reading-Calm : (f : ℕ → A) → Calm (reading f)
  unfolding reading
  reading-Calm f = record { calm = λ w. (refl, refl) }

  pub release-Releases :
      {s : Server} {f : Unit {0} → Act A}
      → ((u : Unit {0}) → Keeps (f u))
      → Releases s (release s >>= f)
  unfolding release ◌>>=◌
  release-Releases later = record { releases = λ w. (later tt).keeps _ }

  pub deferred-Releases : {s : Server} {a : Act A} → Keeps a → Releases s (deferred s a)
  unfolding deferred
  deferred-Releases kept =
      >>=-Releases (attempt-Calm kept) (λ r. release-Releases (λ u. of_result-Keeps r))

module _ {ℓ} {A : Type ℓ} where
  pub for_each-Keeps {κ} :
      {B : Type κ} {f : B → Act (List A)}
      → ((x : B) → Keeps (f x))
      → (xs : List B) → Keeps (for_each f xs)
  unfolding for_each
  for_each-Keeps kept [] = pure-Keeps []
  for_each-Keeps kept (x ∷ xs) =
      >>=-Keeps (kept x) (λ rows. >>=-Keeps (for_each-Keeps kept xs) (λ more. pure-Keeps _))

  pub for_each-Calm {κ} :
      {B : Type κ} {f : B → Act (List A)}
      → ((x : B) → Calm (f x))
      → (xs : List B) → Calm (for_each f xs)
  unfolding for_each
  for_each-Calm c [] = pure-Calm []
  for_each-Calm c (x ∷ xs) =
      >>=-Calm (c x) (λ rows. >>=-Calm (for_each-Calm c xs) (λ more. pure-Calm _))

-- a run, the server's stop, and what follows
pub run-Releases {ℓ κ} :
    {A : Type ℓ} {B : Type κ} {s : Server} {a : Act A} {f : Result Trouble A → Act B}
    → Keeps a
    → ((r : Result Trouble A) → Releases s (f r))
    → Releases s (attempt a >>= f)
run-Releases kept later = >>=-Releases (attempt-Calm kept) later

-- a row, and the rows after it; or an error, once the server is stopped
pub row-Releases {ℓ} :
    {A : Type ℓ} {s : Server} {rest : Act (List A)} (x : A)
    → Releases s rest
    → Releases s (rest >>= λ rows. pure (x ∷ rows))
row-Releases x later = Releases->>= later (λ rows. pure-Keeps _)

pub error-Releases {ℓ} :
    {A : Type ℓ} (s : Server) (e : Trouble) → Releases s (release s >> fail_with {A = A} e)
error-Releases s e = release-Releases λ u. fail_with-Keeps e

-- a run on a server that is then stopped, and what its result gives
pub stopped-Releases {ℓ κ} :
    {A : Type ℓ} {B : Type κ} {s : Server} {a : Act A} {f : Result Trouble A → Act B}
    → Keeps a
    → ((r : Result Trouble A) → Keeps (f r))
    → Releases s (attempt a >>= λ r. release s >> f r)
stopped-Releases kept later = >>=-Releases (attempt-Calm kept) λ r. release-Releases λ u. later r

-- what is left by a start: the same, or one server more
abbrev pub Starts : World → Result Trouble Server × World → Type 0
Starts w r = elim r.0 [ err e ↦ r.1.live ≡ w.live | ok s ↦ r.1.live ≡ s.process ∷ w.live ]

pub start-Starts : (m : Machine) (o : ServerOpts) (w : World) → Starts w (start m o w)
unfolding start started
start-Starts m o w =
    step
      (start_server o m.mock_addr m.unit m.inherited (m.running w.time) (m.attempts w.time o)
        w.live).0
      (start_server o m.mock_addr m.unit m.inherited (m.running w.time) (m.attempts w.time o)
        w.live).1
      (start_server-IsStarted o m.mock_addr m.unit m.inherited (m.running w.time)
        (m.attempts w.time o) w.live)
  where
    step :
        (r : Result StartError Server) (left : List ℕ)
        → IsStarted
            (str_eq o.kind (codes "elodin") || str_eq o.kind [])
            m.unit
            (m.running w.time)
            w.live
            (r, left)
        → Starts w (started w (r, left))
    step (err e) left same = same
    step (ok s) left more = more.0

module _ {ℓ} {A : Type ℓ} (m : Machine) (o : ServerOpts) where
  pub start-Keeps :
      {f : Server → Act A} → ((s : Server) → Releases s (f s)) → Keeps (start m o >>= f)
  unfolding ◌>>=◌
  start-Keeps {f} later = record {
    keeps = λ w. step w (start m o w).0 (start m o w).1 (start-Starts m o w);
  }
    where
      step :
          (w : World) (r : Result Trouble Server) (v : World)
          → Starts w (r, v)
          → (next f (r, v)).1.live ≡ w.live
      step w (err e) v same = same
      step w (ok s) v more =
          (later s).releases v ∙ (ap (stop s.process) more ∙ stop_first s.process w.live)
