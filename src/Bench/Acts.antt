-- ===== src/Bench/Acts.antt =====
-- bench/cmd/bench: functions of the harness that return an error, and change what is running.
--
-- The state is the processes of the servers that were started and not stopped, the mocks that were started
-- (by the times they were; they run until the harness is torn down), the notes of a comparison, and the time, which is the number of the operations before.
use elodin.Common.{ℕ, ◌+◌, Option, List, [], ◌∷◌, ◌++◌, Bytes, Result, ok, err}
use elodin.Bench.Load.{Unexpected}
use elodin.Bench.Ladder.{Failure}
use elodin.Bench.Runs.{RunError}
use elodin.Bench.Servers.{StartError}

pub data Trouble : Type 0 where
  start_failed : StartError → Trouble
  run_failed : RunError → Trouble
  unexpected : Unexpected → Trouble
  not_blocked : Option ℕ → Trouble
  not_climbed : Failure → Trouble
  no_mock no_stat buffer_unread : Trouble
  no_room disk_filled small_buffer : ℕ → Trouble
  within : List Bytes → Trouble → Trouble

-- what a cell of a comparison could not be measured for
pub record Note : Type 0 where
  pub server : Bytes
  pub what : Bytes
  pub why : Trouble

pub record World : Type 0 where
  pub time : ℕ
  pub live : List ℕ
  pub mocks : List ℕ
  pub notes : List Note

-- what a function of the harness does: an error or a result, and the state left
abbrev pub Act {ℓ} : Type ℓ → Type ℓ
Act A = World → Result Trouble A × World

unfoldable pub pure {ℓ} : {A : Type ℓ} → A → Act A
pure a w = (ok a, w)

unfoldable pub fail_with {ℓ} : {A : Type ℓ} → Trouble → Act A
fail_with e w = (err e, w)

abbrev pub next {ℓ κ} :
    {A : Type ℓ} {B : Type κ} → (A → Act B) → Result Trouble A × World → Result Trouble B × World
next f (ok a, w) = f a w
next f (err e, w) = (err e, w)

infixl 5 ◌>>=◌ ◌>>◌
-- `if err != nil { return err }` between two calls
unfoldable pub ◌>>=◌ {ℓ κ} : {A : Type ℓ} {B : Type κ} → Act A → (A → Act B) → Act B
(a >>= f) w = next f (a w)

abbrev pub ◌>>◌ {ℓ κ} : {A : Type ℓ} {B : Type κ} → Act A → Act B → Act B
a >> b = a >>= λ _. b

-- a call whose error is looked at later
unfoldable pub attempt {ℓ} : {A : Type ℓ} → Act A → Act (Result Trouble A)
attempt a w = (ok (a w).0, (a w).1)

unfoldable pub of_result {ℓ} : {A : Type ℓ} → Result Trouble A → Act A
of_result r w = (r, w)

-- `fmt.Errorf("...: %w", err)` with the words before the error
abbrev pub wrap {ℓ} : {A : Type ℓ} → List Bytes → Result Trouble A → Result Trouble A
wrap words (ok a) = ok a
wrap words (err e) = err (within words e)

unfoldable pub context {ℓ} : {A : Type ℓ} → List Bytes → Act A → Act A
context words a w = (wrap words (a w).0, (a w).1)

-- an error of another type
abbrev pub refit {ℓ κ} : {A : Type ℓ} {E : Type κ} → (E → Trouble) → Result E A → Result Trouble A
refit f (ok a) = ok a
refit f (err e) = err (f e)

-- a loop over a list, whose results are what it wrote
unfoldable pub for_each {ℓ κ} :
    {A : Type ℓ} {B : Type κ} → (A → Act (List B)) → List A → Act (List B)
for_each f [] = pure []
for_each f (a ∷ rest) = f a >>= λ rows. for_each f rest >>= λ more. pure (rows ++ more)

-- what is read at the time
unfoldable pub reading {ℓ} : {A : Type ℓ} → (ℕ → A) → Act A
reading f w = (ok (f w.time), record w { time = w.time + 1 })
