-- ===== src/Bench/Servers.antt =====
-- bench/cmd/bench/server.go: how a server under test is started, waited for and stopped.
--
-- The ports that the kernel grants, the configuration that is written, whether a process starts, its
-- environment and what comes back for each probe are input. `live` is the list of the processes that
-- were started and not stopped.
use elodin.Common.{
  ℕ, Bool, true, false, not, ◌&&◌, ◌||◌, Option, none, some, List, [], ◌∷◌, ltb, ◌==◌,
  if◌then◌else◌, Bytes, codes, Result, ok, err, ◌>>=◌, guard, ◌>>◌,
}
use elodin.Text.{str_eq}
use elodin.DnsWire.{parse_reply}
use elodin.UnitEnv.{shipped, check}
use elodin.UnitEnv
use elodin.Bench.Competitors.{find_kind}
use elodin.Bench.Options.{ServerOpts, or_text, with_defaults}

-- why a server is not ready, and why it does not start
pub data Refusal : Type 0 where
  dial_failed write_failed read_failed timed_out : Refusal

pub data StartError : Type 0 where
  no_port not_configured no_stderr not_started : StartError
  elodin_only unknown_kind loads_no_list : StartError
  not_up : Refusal → StartError
  other_environment : UnitEnv.Error → StartError

-- one round of `waitReady`
pub data Probe : Type 0 where
  not_dialled not_written not_read : Probe
  came_back : Bytes → Probe

-- `waitReady` over the rounds before the deadline
unfoldable pub wait_ready : List Probe → Option Refusal → Result Refusal (Unit {0})
wait_ready [] none = err timed_out
wait_ready [] (some last) = err last
wait_ready (not_dialled ∷ probes) last = wait_ready probes (some dial_failed)
wait_ready (not_written ∷ probes) last = wait_ready probes (some write_failed)
wait_ready (not_read ∷ probes) last = wait_ready probes (some read_failed)
wait_ready (came_back msg ∷ probes) last =
    let again = wait_ready probes last in elim (parse_reply msg) [ ok _ ↦ ok tt | err _ ↦ again ]

-- where a server listens and where its upstream is
pub record Ports : Type 0 where
  pub dns : ℕ
  pub dot : ℕ
  pub doh : ℕ
  pub upstream : Bytes

-- what one attempt finds; an address is made of a port by `addr`
pub record Attempt : Type 0 where
  pub granted : List (Option ℕ)
  pub addr : ℕ → Bytes
  pub configure : ServerOpts → Ports → Option (List Bytes)
  pub stderr_made : Bool
  pub process : Option ℕ
  pub probes : List Probe

-- a server: its command line and environment, its addresses by their ports, the process started and
-- the one that is the server; the paths of its certificate and its log are not kept
pub record Server : Type 0 where
  pub argv : List Bytes
  pub env : List Bytes
  pub ports : Ports
  pub process : ℕ
  pub pid : ℕ

-- `freePort`, as often as it is called
unfoldable pub free_port : List (Option ℕ) → Result StartError (ℕ × List (Option ℕ))
free_port [] = err no_port
free_port (none ∷ granted) = err no_port
free_port (some p ∷ granted) = ok (p, granted)

-- the address that a server is given for its upstream
unfoldable pub upstream_of :
    ServerOpts → Bytes → (ℕ → Bytes) → List (Option ℕ) → Result StartError Bytes
unfolding free_port str_eq
upstream_of o mock addr granted =
    if o.no_upstream
    then (free_port granted >>= λ p. ok (addr p.0))
    else ok (if str_eq o.upstream_addr [] then mock else o.upstream_addr)

-- the rows that a server cannot be configured for
unfoldable pub check_row : ServerOpts → Result StartError (Unit {0})
unfolding find_kind str_eq
check_row o =
    let dead = o.dnssec || o.no_upstream in
    if str_eq o.kind (codes "elodin")
    then ok tt
    else if str_eq o.kind (codes "unbound")
    then guard (not dead) elodin_only
    else elim (find_kind o.kind) [
      | none ↦ err unknown_kind
      | some c ↦
          guard (not dead) elodin_only
          >> guard (not (ltb 0 o.block_rules && not c.blocks)) loads_no_list
    ]

unfoldable pub of_config : Option (List Bytes) → Result StartError (List Bytes)
of_config none = err not_configured
of_config (some argv) = ok argv

-- `start` up to the process: the ports and the command line
unfoldable pub prepare : ServerOpts → Bytes → Attempt → Result StartError (Ports × List Bytes)
unfolding with_defaults free_port upstream_of check_row of_config
prepare opts mock a = do
  let o = with_defaults opts
  dns ← free_port a.granted
  dot ← free_port dns.1
  doh ← free_port dot.1
  upstream ← upstream_of o mock a.addr doh.1
  let p : Ports = record { dns = dns.0; dot = dot.0; doh = doh.0; upstream = upstream }
  check_row o
  argv ← of_config (a.configure o p)
  ok (p, if str_eq o.cpus [] then argv else codes "taskset" ∷ codes "-c" ∷ o.cpus ∷ argv)

-- `stop` of a process
unfoldable pub stop : ℕ → List ℕ → List ℕ
stop pid [] = []
stop pid (p ∷ live) = let rest = stop pid live in if p == pid then live else p ∷ rest

-- the end of `start`: a server that does not get ready is stopped
unfoldable pub settle :
    Server → Result Refusal (Unit {0}) → List ℕ → Result StartError Server × List ℕ
unfolding stop
settle s (err e) live = (err (not_up e), stop s.process live)
settle s (ok _) live = (ok s, live)

-- `start` from the process on, which makes a server of it
unfoldable pub launch :
    Option ℕ → (ℕ → Server) → List Probe → List ℕ → Result StartError Server × List ℕ
unfolding settle wait_ready
launch none make probes live = (err not_started, live)
launch (some pid) make probes live =
    settle (record (make pid) { process = pid; pid = pid }) (wait_ready probes none) (pid ∷ live)

-- `start` with the environment of the unit and its own, and the processes left
unfoldable pub start_process :
    ServerOpts
    → List Bytes
    → List Bytes
    → Ports × List Bytes
    → Attempt
    → List ℕ
    → Result StartError Server × List ℕ
unfolding launch shipped str_eq
start_process o unit inherited p a live =
    let env = shipped (if str_eq o.kind (codes "elodin") then unit else []) inherited in
    let launched =
      launch a.process
        (λ pid. record { argv = p.1; env = env; ports = p.0; process = pid; pid = pid }) a.probes
        live in
    if not a.stderr_made then (err no_stderr, live) else launched

unfoldable pub start :
    ServerOpts
    → Bytes
    → List Bytes
    → List Bytes
    → Attempt
    → List ℕ
    → Result StartError Server × List ℕ
unfolding prepare start_process
start o mock unit inherited a live = elim (prepare o mock a) [
  | err e ↦ (err e, live)
  | ok p ↦ start_process o unit inherited p a live
]

-- the check of `startServer` on a server that came up: elodin has to have the environment of the unit
unfoldable pub accept :
    Bool → Result UnitEnv.Error (Unit {0}) → Server → List ℕ → Result StartError Server × List ℕ
unfolding stop
accept true (err e) s left = (err (other_environment e), stop s.process left)
accept true (ok _) s left = (ok s, left)
accept false checked s left = (ok s, left)

-- the rounds of `startServer` over the attempts it may make, with the error of the one before:
-- `running` gives the process that a started one leads to, and the text of its environment
unfoldable pub start_rounds :
    ServerOpts
    → Bytes
    → List Bytes
    → List Bytes
    → (ℕ → ℕ × Bytes)
    → List Attempt
    → StartError
    → List ℕ
    → Result StartError Server × List ℕ
unfolding start accept check str_eq
start_rounds o mock unit inherited running [] last live = (err last, live)
start_rounds o mock unit inherited running (a ∷ more) last live =
    let (result, left) = start o mock unit inherited a live in
    elim result [
      | err e ↦ start_rounds o mock unit inherited running more e left
      | ok s ↦
          accept (str_eq o.kind (codes "elodin")) (check (running s.process).1 unit)
            (record s { pid = (running s.process).0 }) left
    ]

unfoldable pub start_server :
    ServerOpts
    → Bytes
    → List Bytes
    → List Bytes
    → (ℕ → ℕ × Bytes)
    → Attempt × Attempt × Attempt
    → List ℕ
    → Result StartError Server × List ℕ
unfolding start_rounds str_eq
start_server o mock unit inherited running (a, b, c) live =
    start_rounds (record o { kind = or_text o.kind (codes "elodin") }) mock unit inherited running
      (a ∷ b ∷ c ∷ []) no_port live

unfoldable pub addr_for : Server → Bytes → ℕ
unfolding str_eq
addr_for s transport =
    if str_eq transport (codes "dot") || str_eq transport (codes "handshake")
    then s.ports.dot
    else if str_eq transport (codes "doh1") || str_eq transport (codes "doh2")
    then s.ports.doh
    else s.ports.dns
