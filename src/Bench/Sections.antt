-- ===== src/Bench/Sections.antt =====
-- bench/cmd/bench: the sections of a run, compare among them, and runAll.
--
-- runAll is the sections it gives; what is printed of the machine around them is not modelled. A receive
-- buffer is a number without a sign.
use elodin.Common.{
  ℕ, ◌+◌, ltb, ◌==◌, Bool, true, ◌||◌, Option, none, some, List, [], ◌∷◌, ◌++◌, take, length,
  if◌then◌else◌, Bytes, codes, Result, ok, err,
}
use elodin.Text.{str_eq, contains, trim_space, fields, join}
use elodin.ProcStat.{parse_int}
use elodin.Bench.Load.{Report, label}
use elodin.Bench.Competitors.{supports, udp, tcp, dot, doh2}
use elodin.Bench.Acts.{
  Trouble, Note, Act, pure, ◌>>=◌, ◌>>◌, attempt, of_result, context, for_each, buffer_unread,
  small_buffer,
}
use elodin.Bench.Machine.{Machine, start, release, start_mock, ask_once, rss, serves}
use elodin.Bench.Tables.{workloads, transports, h1_versus_h2, cpu_section, latency, handshakes}
use elodin.Bench.Scaling.{unique, loops, misses, connections, inflight, shedding}
use elodin.Bench.Weighing.{memory, log_disk_room, logging_cost}
use elodin.Bench.Rivals.{cell_of, memory_row, hits_row, climb_row}
use elodin.Bench.Cells.{
  Cell, server, per_item, per_answered, dash, Line, says, failures, line, Section,
}

-- `checkReceiveBuffer`, of what was read
unfoldable pub check_receive_buffer : Option Bytes → Result Trouble (Unit {0})
unfolding parse_int trim_space
check_receive_buffer none = err buffer_unread
check_receive_buffer (some b) = elim (parse_int (trim_space b)) [
  | err e ↦ err buffer_unread
  | ok n ↦ if ltb n 1048576 then err (small_buffer n) else ok tt
]

-- how many clients `compareHeld` asks for
abbrev held_n : ℕ
held_n = 1000

-- what a server weighs before and with its connections
unfoldable pub held_run : Machine → Bytes → Bytes → Act (ℕ × Report × ℕ)
held_run m kind t = do
  s ← start m (record (serves (codes "cmp-conns") kind) {
    cache = true;
    max_connections = held_n + 64;
    client_timeout = 120000000000;
  })
  before ← rss m s
  result ← attempt (ask_once m s t held_n (codes "fixed"))
  release s
  r ← of_result result
  pure (before, r.0, r.1)

abbrev held_text : ℕ × Report × ℕ → Cell
held_text (before, r, held) =
    if r.answered == held_n then per_item held before held_n else per_answered held before held_n r

-- `heldCell`
unfoldable pub held_cell : Machine → Bytes → Bytes → Act Cell
unfolding supports label
held_cell m kind t =
    let measured = cell_of kind (label t ++ codes " held") held_text (held_run m kind t) in
    if supports kind t then measured else pure dash

-- what a server weighs before and at most while queries wait
unfoldable pub inflight_run : Machine → Bytes → Bytes → Act (ℕ × Report × ℕ)
inflight_run m kind mock = do
  s ← start m (record (serves (codes "cmp-inflight") kind) {
    max_pending = held_n + 256;
    upstream_addr = mock;
  })
  idle ← rss m s
  result ← attempt (ask_once m s udp held_n unique)
  release s
  r ← of_result result
  pure (idle, r.0, r.2)

abbrev waiting_text : ℕ × Report × ℕ → Cell
waiting_text (idle, r, peak) = per_answered peak idle held_n r

-- `inflightCell`
unfoldable pub inflight_cell : Machine → Bytes → Bytes → Act Cell
inflight_cell m kind mock = cell_of kind (codes "in flight") waiting_text (inflight_run m kind mock)

-- a row of `compareHeld`
unfoldable pub waiting_row : Machine → Bytes → Bytes → Act (List Line)
waiting_row m mock kind =
    for_each (λ t. held_cell m kind t >>= λ c. pure (c ∷ [])) (tcp ∷ dot ∷ doh2 ∷ []) >>= λ cs.
    inflight_cell m kind mock >>= λ c. pure (line (server kind ∷ cs ++ c ∷ []))

unfoldable pub compare_held : Machine → Act (List Line)
compare_held m = start_mock m 1000000000 >>= λ mock. for_each (waiting_row m mock) m.kinds

-- `var notes []string`, and its end: the notes, if there are any
abbrev pub clear_notes : Act (Unit {0})
clear_notes w = (ok tt, record w { notes = [] })

abbrev pub written : List Note → List Line
written [] = []
written (n ∷ notes) = failures (n ∷ notes) ∷ []

abbrev pub noted : Act (List Line)
noted w = (ok (written w.notes), w)

-- the tables of `compare`
unfoldable pub compare_tables : Machine → Act (List Line)
compare_tables m = do
  weights ← for_each (memory_row m) m.kinds
  hits ← for_each (hits_row m) m.kinds
  misses ← for_each (climb_row m) m.kinds
  held ← compare_held m
  pure (weights ++ (hits ++ (misses ++ held)))

abbrev pub compare_title : Bytes
compare_title = codes "Against the competition"

-- `compare` on a machine with the CPUs that it needs
unfoldable pub compared : Machine → Act Section
compared m = do
  of_result (check_receive_buffer m.rmem)
  clear_notes
  rows ← compare_tables m
  notes ← noted
  pure (record { title = compare_title; body = rows ++ notes })

unfoldable pub compare : Machine → Act Section
compare m =
    let measured = compared m in
    if ltb m.cpus 4
    then pure
        (record { title = compare_title; body = says (codes "Skipped: needs four CPUs.\n") ∷ [] })
    else measured

-- `oneLine`
unfoldable pub one_line : Bytes → Bytes
unfolding fields join
one_line e =
    let s = join (fields e) (codes " ") in
    if ltb 300 (length s) then take 300 s ++ 226 ∷ 128 ∷ 166 ∷ [] else s

-- the steps of `runAll`
unfoldable pub run_plan : Machine → List (Bytes × Act Section)
run_plan m =
    (codes "workloads", workloads m)
    ∷ (codes "transports", transports m)
    ∷ (codes "h1h2", h1_versus_h2 m)
    ∷ (codes "cpu", cpu_section m)
    ∷ (codes "handshake", handshakes m)
    ∷ (codes "memory", memory m)
    ∷ (codes "shedding", shedding m)
    ∷ (codes "loops", loops m)
    ∷ (codes "misses", misses m)
    ∷ (codes "connections", connections m)
    ∷ (codes "inflight", inflight m)
    ∷ (codes "latency", latency m)
    ∷ (codes "logging", logging_cost m)
    ∷ (codes "compare", compare m)
    ∷ []

-- `want`
unfoldable pub wanted : Bytes → Bytes → Bool
unfolding str_eq contains
wanted filter name = str_eq filter [] || contains name filter

-- the loop of `runAll` over the steps that are left
unfoldable pub run_steps : Bytes → List (Bytes × Act Section) → Act (List Section)
run_steps filter [] = pure []
run_steps filter ((name, step) ∷ later) =
    let rest = run_steps filter later in
    let ran = context (name ∷ []) step >>= λ s. rest >>= λ more. pure (s ∷ more) in
    if wanted filter name then ran else rest

unfoldable pub run_sections : Bytes → Machine → Act (List Section)
run_sections filter m =
    let ran = run_steps filter (run_plan m) in
    let checked = context (codes "logging" ∷ []) (log_disk_room m) >> ran in
    if wanted filter (codes "logging") then checked else ran
