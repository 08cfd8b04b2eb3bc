-- ===== src/Bench/Startup.antt =====
-- When a server comes up.
use elodin.Common.{
  ◌≡◌, refl, ap, ◌∙◌, ℕ, Bool, true, false, not, Option, none, some, List, [], ◌∷◌, any, All,
  if◌then◌else◌, Bytes, codes, Result, ok, err, Result-cases, value, is_none, inl, inr,
}
use elodin.Text.{str_eq}
use elodin.DnsWire.{parse_reply}
use elodin.UnitEnv.{shipped, check}
use elodin.UnitEnv.Started.{environ_of, HasNoNul, check-shipped}
use elodin.Bench.Servers.{
  StartError, Server, Attempt, Ports, Refusal, Probe, not_dialled, not_written, not_read, came_back,
  no_stderr, prepare, wait_ready, settle, launch, start_process, start, accept, start_rounds,
}
use elodin.Bench.Options.{ServerOpts}

-- a probe that brings back a reply
abbrev pub is_reply : Probe → Bool
is_reply (came_back msg) = not (is_none (value (parse_reply msg)))
is_reply p = false

wait_ready-any :
    (probes : List Probe) (last : Option Refusal)
    → any is_reply probes ≡ true
    → wait_ready probes last ≡ ok tt
unfolding wait_ready
wait_ready-any [] last h = absurd cc
wait_ready-any (not_dialled ∷ probes) last h = wait_ready-any probes _ h
wait_ready-any (not_written ∷ probes) last h = wait_ready-any probes _ h
wait_ready-any (not_read ∷ probes) last h = wait_ready-any probes _ h
wait_ready-any (came_back msg ∷ probes) last h = elim (Result-cases (parse_reply msg)) [
  | inl (r, parsed) ↦ rw (wait_ready, parsed) refl
  | inr (e, bad) ↦ rw (wait_ready, bad) (wait_ready-any probes last (rw bad at h))
]

-- the server that an attempt makes of a process, of elodin or of another
abbrev pub server_of : Bool → List Bytes → List Bytes → Ports × List Bytes → ℕ → Server
server_of is_elodin unit inherited p pid = record {
  argv = p.1;
  env = shipped (if is_elodin then unit else []) inherited;
  ports = p.0;
  process = pid;
  pid = pid;
}

start-up :
    (o : ServerOpts) (mock : Bytes) (unit inherited : List Bytes) (a : Attempt) (live : List ℕ)
    (p : Ports × List Bytes) (pid : ℕ)
    → str_eq o.kind (codes "elodin") ≡ true
    → prepare o mock a ≡ ok p
    → a.stderr_made ≡ true
    → a.process ≡ some pid
    → any is_reply a.probes ≡ true
    → start o mock unit inherited a live ≡ (ok (server_of true unit inherited p pid), pid ∷ live)
unfolding start start_process launch settle
start-up o mock unit inherited a live p pid is_elodin fine made process answered =
    ap
      (λ r. elim r as (λ _. Result StartError Server × List ℕ) [
        | err e ↦ (err e, live)
        | ok q ↦ start_process o unit inherited q a live
      ])
      fine
    ∙ ap
        (λ b.
          if not b
          then (err no_stderr, live)
          else launch a.process (server_of (str_eq o.kind (codes "elodin")) unit inherited p)
              a.probes live)
        made
    ∙ ap (λ q. launch q (server_of (str_eq o.kind (codes "elodin")) unit inherited p) a.probes live)
        process
    ∙ ap (λ b. settle (server_of b unit inherited p pid) (wait_ready a.probes none) (pid ∷ live))
        is_elodin
    ∙ ap (λ r. settle (server_of true unit inherited p pid) r (pid ∷ live))
        (wait_ready-any a.probes none answered)

-- Where an attempt to start elodin gets its ports, its configuration, its file and its process, a reply
-- comes back to one of its probes, and the process found behind has the environment it was started with,
-- `startServer` returns that server without trying again, with the pid of that process, for assignments
-- and an inherited environment whose entries have no NUL byte.
pub start_rounds-up :
    (o : ServerOpts) (mock : Bytes) (unit inherited : List Bytes) (running : ℕ → ℕ × Bytes)
    (a : Attempt) (more : List Attempt) (last : StartError) (live : List ℕ) (p : Ports × List Bytes)
    (pid : ℕ)
    → str_eq o.kind (codes "elodin") ≡ true
    → prepare o mock a ≡ ok p
    → a.stderr_made ≡ true
    → a.process ≡ some pid
    → any is_reply a.probes ≡ true
    → (running pid).1 ≡ environ_of (shipped unit inherited)
    → All HasNoNul unit
    → All HasNoNul inherited
    → start_rounds o mock unit inherited running (a ∷ more) last live
      ≡ (ok (record (server_of true unit inherited p pid) { pid = (running pid).0 }), pid ∷ live)
unfolding start_rounds accept
start_rounds-up o mock unit inherited running a more last live p pid is_elodin fine made process
      answered same no_nul no_nul' =
    let up = record (server_of true unit inherited p pid) { pid = (running pid).0 } in
    ap
      (λ r. elim r.0 as (λ _. Result StartError Server × List ℕ) [
        | err e ↦ start_rounds o mock unit inherited running more e r.1
        | ok s ↦
            accept (str_eq o.kind (codes "elodin")) (check (running s.process).1 unit)
              (record s { pid = (running s.process).0 }) r.1
      ])
      (start-up o mock unit inherited a live p pid is_elodin fine made process answered)
    ∙ ap (λ b. accept b (check (running pid).1 unit) up (pid ∷ live)) is_elodin
    ∙ ap (λ c. accept true c up (pid ∷ live))
        (ap (λ t. check t unit) same ∙ check-shipped unit inherited no_nul no_nul')
