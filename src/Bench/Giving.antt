-- ===== src/Bench/Giving.antt =====
-- What the functions of the harness return, in general.
use elodin.Common.{Result, ok, err}
use elodin.Bench.Servers.{Server}
use elodin.Bench.Acts.{Trouble, World, Act, pure, fail_with, next, ◌>>=◌, attempt, of_result}
use elodin.Bench.Machine.{deferred}

-- what is returned without an error has a property
abbrev pub Holds {ℓ} : {A : Type ℓ} → (A → Type 0) → Result Trouble A → Type 0
Holds P (ok x) = P x
Holds P (err e) = Unit

pub record Gives {ℓ} {A : Type ℓ} (P : A → Type 0) (a : Act A) : Type 0 where
  pub gives : (w : World) → Holds P (a w).0

module _ {ℓ} {A : Type ℓ} {P : A → Type 0} where
  pub pure-Gives : (x : A) → P x → Gives P (pure x)
  unfolding pure
  pure-Gives x p = record { gives = λ w. p }

  pub fail_with-Gives : (e : Trouble) → Gives P (fail_with e)
  unfolding fail_with
  fail_with-Gives e = record { gives = λ w. tt }

  pub of_result-Gives : (r : Result Trouble A) → Holds P r → Gives P (of_result r)
  unfolding of_result
  of_result-Gives r h = record { gives = λ w. h }

  pub attempt-Gives : {a : Act A} → Gives P a → Gives (Holds P) (attempt a)
  unfolding attempt
  attempt-Gives g = record { gives = λ w. g.gives w }

module _ {ℓ κ} {A : Type ℓ} {B : Type κ} {P : B → Type 0} {a : Act A} {f : A → Act B} where
  pub >>=-Gives : (Q : A → Type 0) → Gives Q a → ((x : A) → Q x → Gives P (f x)) → Gives P (a >>= f)
  unfolding ◌>>=◌
  >>=-Gives Q g later = record { gives = λ w. step (a w).0 (a w).1 (g.gives w) }
    where
      step : (r : Result Trouble A) (v : World) → Holds Q r → Holds P (next f (r, v)).0
      step (ok x) v q = (later x q).gives v
      step (err e) v q = tt

-- where what comes before does not matter
pub then-Gives {ℓ κ} :
    {A : Type ℓ} {B : Type κ} {P : B → Type 0} (a : Act A) {f : A → Act B}
    → ((x : A) → Gives P (f x))
    → Gives P (a >>= f)
unfolding ◌>>=◌
then-Gives {P = P} a {f} later = record { gives = λ w. step (a w).0 (a w).1 }
  where
    step : (r : Result Trouble _) (v : World) → Holds P (next f (r, v)).0
    step (ok x) v = (later x).gives v
    step (err e) v = tt

pub deferred-Gives {ℓ} :
    {A : Type ℓ} {P : A → Type 0} (s : Server) {a : Act A} → Gives P a → Gives P (deferred s a)
unfolding deferred
deferred-Gives {P = P} s g =
    >>=-Gives (Holds P) (attempt-Gives g) λ r h. then-Gives _ λ u. of_result-Gives r h
