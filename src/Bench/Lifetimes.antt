-- ===== src/Bench/Lifetimes.antt =====
-- Which processes are left when a server was started.
use elodin.Common.{
  ℕ, ◌≡◌, refl, ap, ◌∙◌, Bool, true, false, not, ◌||◌, Option, none, some, List, [], ◌∷◌,
  if◌then◌else◌, Bytes, codes, Result, ok, err, arith,
}
use mathlib.Core.Path.{subst}
use elodin.Text.{str_eq}
use elodin.UnitEnv.{check}
use elodin.UnitEnv
use elodin.Bench.Servers.{
  StartError, Server, Attempt, Ports, Refusal, Probe, no_stderr, no_port, prepare, wait_ready, stop,
  settle, launch, start_process, start, accept, start_rounds, start_server,
}
use elodin.Bench.Options.{ServerOpts, or_text}

pub stop_first : (pid : ℕ) (live : List ℕ) → stop pid (pid ∷ live) ≡ live
unfolding stop
stop_first pid live = ground arith

-- an attempt leaves one process more if it gives a server, that server's
abbrev Leaves : List ℕ → Result StartError Server × List ℕ → Type 0
Leaves live r = elim r.0 [ err e ↦ r.1 ≡ live | ok s ↦ r.1 ≡ s.process ∷ live ]

settle-Leaves :
    (s : Server) (r : Result Refusal (Unit {0})) (live : List ℕ)
    → Leaves live (settle s r (s.process ∷ live))
unfolding settle
settle-Leaves s (err e) live = stop_first s.process live
settle-Leaves s (ok u) live = refl

launch-Leaves :
    (process : Option ℕ) (make : ℕ → Server) (probes : List Probe) (live : List ℕ)
    → Leaves live (launch process make probes live)
unfolding launch
launch-Leaves none make probes live = refl
launch-Leaves (some pid) make probes live = settle-Leaves _ (wait_ready probes none) live

if-Leaves :
    (b : Bool) (live : List ℕ) (r : Result StartError Server × List ℕ)
    → Leaves live r
    → Leaves live (if b then (err no_stderr, live) else r)
if-Leaves true live r l = refl
if-Leaves false live r l = l

start_process-Leaves :
    (o : ServerOpts) (unit inherited : List Bytes) (p : Ports × List Bytes) (a : Attempt)
    (live : List ℕ)
    → Leaves live (start_process o unit inherited p a live)
unfolding start_process
start_process-Leaves o unit inherited p a live =
    if-Leaves (not a.stderr_made) live _ (launch-Leaves a.process _ a.probes live)

start-Leaves :
    (o : ServerOpts) (mock : Bytes) (unit inherited : List Bytes) (a : Attempt) (live : List ℕ)
    → Leaves live (start o mock unit inherited a live)
unfolding start
start-Leaves o mock unit inherited a live = step (prepare o mock a)
  where
    step :
        (r : Result StartError (Ports × List Bytes))
        → Leaves live
            (elim r [ err e ↦ (err e, live) | ok p ↦ start_process o unit inherited p a live ])
    step (err e) = refl
    step (ok p) = start_process-Leaves o unit inherited p a live

-- the server that is left, if one is: its process is the one found behind the one started, and if it is
-- elodin that process has the environment of the unit
abbrev pub IsStarted :
    Bool → List Bytes → (ℕ → ℕ × Bytes) → List ℕ → Result StartError Server × List ℕ → Type 0
IsStarted is_elodin unit running live r = elim r.0 [
  | err e ↦ r.1 ≡ live
  | ok s ↦
      (r.1 ≡ s.process ∷ live)
      × (s.pid ≡ (running s.process).0)
      × (if is_elodin then check (running s.process).1 unit ≡ ok tt else Unit)
]

accept-IsStarted :
    (is_elodin : Bool) (unit : List Bytes) (running : ℕ → ℕ × Bytes) (s : Server)
    (left live : List ℕ) (r : Result UnitEnv.Error (Unit {0}))
    → check (running s.process).1 unit ≡ r
    → s.pid ≡ (running s.process).0
    → left ≡ s.process ∷ live
    → IsStarted is_elodin unit running live (accept is_elodin r s left)
unfolding accept
accept-IsStarted true unit running s left live (err e) c p l =
    ap (stop s.process) l ∙ stop_first s.process live
accept-IsStarted true unit running s left live (ok u) c p l = (l, p, c)
accept-IsStarted false unit running s left live r c p l = (l, p, tt)

start_rounds-IsStarted :
    (o : ServerOpts) (mock : Bytes) (unit inherited : List Bytes) (running : ℕ → ℕ × Bytes)
    (attempts : List Attempt) (last : StartError) (live : List ℕ)
    → IsStarted
        (str_eq o.kind (codes "elodin"))
        unit
        running
        live
        (start_rounds o mock unit inherited running attempts last live)
unfolding start_rounds
start_rounds-IsStarted o mock unit inherited running [] last live = refl
start_rounds-IsStarted o mock unit inherited running (a ∷ more) last live =
    step (start o mock unit inherited a live).0 (start o mock unit inherited a live).1
      (start-Leaves o mock unit inherited a live)
      (start_rounds-IsStarted o mock unit inherited running more)
  where
    step :
        (result : Result StartError Server) (left : List ℕ)
        → Leaves live (result, left)
        → ((e : StartError) (left : List ℕ)
            → IsStarted
                (str_eq o.kind (codes "elodin"))
                unit
                running
                left
                (start_rounds o mock unit inherited running more e left))
        → IsStarted (str_eq o.kind (codes "elodin")) unit running live (elim result [
          | err e ↦ start_rounds o mock unit inherited running more e left
          | ok s ↦
              accept
                (str_eq o.kind (codes "elodin"))
                (check (running s.process).1 unit)
                (record s { pid = (running s.process).0 })
                left
        ])
    step (err e) left l again =
        subst
          (λ k.
            IsStarted (str_eq o.kind (codes "elodin")) unit running k
              (start_rounds o mock unit inherited running more e left))
          l (again e left)
    step (ok s) left l again =
        accept-IsStarted (str_eq o.kind (codes "elodin")) unit running
          (record s { pid = (running s.process).0 }) left live _ refl refl l

or_false : (b : Bool) → b ≡ (b || false)
or_false true = refl
or_false false = refl

-- Whatever the three attempts find, `startServer` leaves the processes there were if it returns an
-- error, and one more, that of the server, if it returns one. The server's pid is then the one found
-- behind that process, and if it is elodin, which is what it is by default, `Check` finds every
-- assignment of the unit in the environment of that process.
pub start_server-IsStarted :
    (o : ServerOpts) (mock : Bytes) (unit inherited : List Bytes) (running : ℕ → ℕ × Bytes)
    (attempts : Attempt × Attempt × Attempt) (live : List ℕ)
    → IsStarted
        (str_eq o.kind (codes "elodin") || str_eq o.kind [])
        unit
        running
        live
        (start_server o mock unit inherited running attempts live)
unfolding start_server str_eq
start_server-IsStarted o mock unit inherited running (a, b, c) live =
    subst
      (λ e.
        IsStarted e unit running live (start_server o mock unit inherited running (a, b, c) live))
      (defaulted o.kind)
      (start_rounds-IsStarted (record o { kind = or_text o.kind (codes "elodin") }) mock unit
        inherited running (a ∷ b ∷ c ∷ []) no_port live)
  where
    defaulted :
        (kind : Bytes)
        → str_eq (if str_eq kind [] then codes "elodin" else kind) (codes "elodin")
          ≡ (str_eq kind (codes "elodin") || str_eq kind [])
    defaulted [] = refl
    defaulted (k ∷ kind) = or_false (str_eq (k ∷ kind) (codes "elodin"))
